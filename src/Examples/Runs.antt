-- ===== src/Examples/Runs.antt =====
-- A full run that saw one of two findings again.
use exact_surface.Prelude.{
  put, get, ℕ, ◌≡◌, refl, Bool, true, false, some, List, [], ◌∷◌, In, here, there,
}
use exact_surface.Liveness.{Run, Doc, finding_phase, phase_reference_starts, annotate_gone}
use exact_surface.Liveness.Proof.{IsProven, annotate_gone-IsProven}

abbrev runs : List Run
runs =
    record {
      targets = [];
      pipeline = some "full";
      status = "success";
      started_at = some 100;
      stages = record { name = some "scan"; status = "success"; started_at = some 120 } ∷ [];
    }
    ∷ []

abbrev finding : ℕ → Bool → Doc
finding t gone = record { origin = "nuclei"; last_seen = some t; gone = gone }

abbrev docs : List Doc
docs = finding 130 false ∷ finding 50 false ∷ []

annotate_gone-IsProven_example :
    (d : Doc) × In d docs × (some 50 ≡ d.last_seen) × IsProven runs finding_phase docs d
unfolding annotate_gone finding_phase get phase_reference_starts put
annotate_gone-IsProven_example =
    annotate_gone-IsProven runs finding_phase docs (finding 50 true) (there (here refl)) refl

-- Only the one that was not seen since is gone.
annotate_gone_test :
    annotate_gone finding_phase docs (phase_reference_starts runs)
    ≡ finding 130 false ∷ finding 50 true ∷ []
unfolding annotate_gone finding_phase get phase_reference_starts put
annotate_gone_test = refl
