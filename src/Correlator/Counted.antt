-- ===== src/Correlator/Counted.antt =====
-- modules/intelligence/correlator.py: what the signals leave in the counts.
use exact_surface.Prelude.{
  ℕ, ◌+◌, ◌≤◌, String, ◌≡◌, ap, sym, ◌∙◌, Bool, true, false, Option, none, some, List, [], ◌∷◌,
  ◌++◌, length, length-append, arith, inl, inr, if◌then◌else◌, ◌==◌, Dict, get, put, get-put, keys,
  contains, Entries, Entries-put, text_eq, string_eq, nat_eq, Bool-cases,
}
use exact_surface.Scope.Host.{Text}
use exact_surface.Severity.{Severity, low, medium, high}
use exact_surface.Correlator.{
  Signal, Asset, Found, Secret, Leak, CveMatch, Port, Tally, is_blank, get_or, add, add_finding,
  add_findings, add_secrets, add_leaks, add_cve_matches, add_ports, boost, ephemeral, ip_to_host,
  fp_to_host, suppressed_states, sensitive_ports, no_tally, tally,
}

abbrev or_value : {V : Type 0} → V → Option V → V
or_value v o = elim o [ none ↦ v | some w ↦ w ]

get_or-put :
    {V : Type 0} (v w : V) (j k : Text) (d : Dict Text V)
    → get_or v k (put j w d) ≡ (if j == k then w else get_or v k d)
get_or-put v w j k d = elim (Bool-cases (j == k)) [
  | inl t ↦
      let e : get k (put j w d) ≡ some w =
        get-put j k w d ∙ ap (λ b. if b then some w else get k d) t in
      ap (λ o. or_value v o) e ∙ sym (ap (λ b. if b then w else get_or v k d) t)
  | inr f ↦
      let e : get k (put j w d) ≡ get k d =
        get-put j k w d ∙ ap (λ b. if b then some w else get k d) f in
      ap (λ o. or_value v o) e ∙ sym (ap (λ b. if b then w else get_or v k d) f)
]

-- What holds of the counts after any number of signals.
pub record IsCounted (t : Tally) : Type 0 where
  pub capped : Entries (λ host n. n ≤ 100) t.score
  pub backed : (host : Text) → get_or 0 host t.high_signal_count ≤ length (get_or [] host t.signals)

backed_lem :
    (host other : Text) (counts : Bool) (label : Signal) (t : Tally)
    → ((x : Text) → get_or 0 x t.high_signal_count ≤ length (get_or [] x t.signals))
    → get_or 0 other (
        if counts
        then put host (get_or 0 host t.high_signal_count + 1) t.high_signal_count
        else t.high_signal_count)
      ≤ length (get_or [] other (put host (get_or [] host t.signals ++ (label ∷ [])) t.signals))
backed_lem host other counts label t h =
    let noted = get_or-put [] (get_or [] host t.signals ++ (label ∷ [])) host other t.signals in
    let counted =
      get_or-put 0 (get_or 0 host t.high_signal_count + 1) host other t.high_signal_count in
    let longer = length-append (get_or [] host t.signals) (label ∷ []) in
    elim (Bool-cases (host == other)) [
      | inr f ↦
          let n : length
                (get_or [] other (put host (get_or [] host t.signals ++ (label ∷ [])) t.signals))
              ≡ length (get_or [] other t.signals) =
            ap length (rw f at noted) in
          elim (Bool-cases counts) [
            | inl c ↦ rw c (omega (arith, n, rw f at counted, h other))
            | inr c ↦ rw c (omega (arith, n, h other))
          ]
      | inl e ↦
          let q = (text_eq.beq_iff host other).0 e in
          let n : length
                (get_or [] other (put host (get_or [] host t.signals ++ (label ∷ [])) t.signals))
              ≡ length (get_or [] host t.signals) + 1 =
            ap length (rw e at noted) ∙ longer in
          let same : get_or 0 other t.high_signal_count ≡ get_or 0 host t.high_signal_count =
            ap (λ z. get_or 0 z t.high_signal_count) (sym q) in
          elim (Bool-cases counts) [
            | inl c ↦ rw c (omega (arith, n, rw e at counted, h host))
            | inr c ↦ rw c (omega (arith, n, same, h host))
          ]
    ]

pub add-IsCounted :
    (host : Text) (weight : ℕ) (label : Signal) (sev : Severity) (counts : Bool) (t : Tally)
    → IsCounted t
    → IsCounted (add host weight label sev counts t)
unfolding add
add-IsCounted host weight label sev counts t h = elim (Bool-cases (is_blank host)) [
  | inl b ↦ rw (b, add) h
  | inr f ↦
      rw (f, add)
        (record {
          capped = Entries-put _ host _ t.score (omega arith) h.capped;
          backed = λ other. backed_lem host other counts label t h.backed;
        })
]

-- What every signal keeps, all the loops keep.
module _ (url_host : Text → Text) (P : Tally → Type 0)
    (step : (host : Text) (weight : ℕ) (label : Signal) (sev : Severity) (counts : Bool) (t : Tally)
      → P t
      → P (add host weight label sev counts t)) where
  when : (b : Bool) (t u : Tally) → P t → P u → P (if b then t else u)
  when true t u h k = h
  when false t u h k = k

  add_findings-keeps : (fs : List Found) (t : Tally) → P t → P (add_findings url_host fs t)
  unfolding add_findings add_finding
  add_findings-keeps [] t h = h
  add_findings-keeps (f ∷ fs) t h =
      add_findings-keeps fs _ (when (contains f.state suppressed_states) _ _ h (step _ _ _ _ _ t h))

  add_secrets-keeps : (ss : List Secret) (t : Tally) → P t → P (add_secrets url_host ss t)
  unfolding add_secrets
  add_secrets-keeps [] t h = h
  add_secrets-keeps (s ∷ ss) t h = add_secrets-keeps ss _ (step _ _ _ _ _ t h)

  add_leaks-keeps : (ls : List Leak) (t : Tally) → P t → P (add_leaks url_host ls t)
  unfolding add_leaks
  add_leaks-keeps [] t h = h
  add_leaks-keeps (l ∷ ls) t h = add_leaks-keeps ls _ (step _ _ _ high true t h)

  add_cve_matches-keeps :
      (d : Dict String Text) (ms : List CveMatch) (t : Tally) → P t → P (add_cve_matches d ms t)
  unfolding add_cve_matches
  add_cve_matches-keeps d [] t h = h
  add_cve_matches-keeps d (m ∷ ms) t h = add_cve_matches-keeps d ms _ (step _ _ _ _ _ t h)

  add_ports-keeps : (d : Dict Text Text) (ps : List Port) (t : Tally) → P t → P (add_ports d ps t)
  unfolding add_ports
  add_ports-keeps d [] t h = h
  add_ports-keeps d (p ∷ ps) t h =
      add_ports-keeps d ps _
        (when (contains p.port sensitive_ports) _ _ (step _ _ _ medium false t h) h)

  boost-keeps : (hosts : List Text) (t : Tally) → P t → P (boost hosts t)
  unfolding boost
  boost-keeps [] t h = h
  boost-keeps (x ∷ xs) t h =
      boost-keeps xs _ (when (contains x (keys t.score)) _ _ (step _ _ _ low false t h) h)

  pub tally-keeps :
      (assets : List Asset) (findings : List Found) (secrets : List Secret) (leaks : List Leak)
      (cve_matches : List CveMatch) (ports : List Port)
      → P no_tally
      → P (tally url_host assets findings secrets leaks cve_matches ports)
  unfolding tally
  tally-keeps assets findings secrets leaks cve_matches ports h = boost-keeps (ephemeral assets) _ (
      add_ports-keeps (ip_to_host assets []) ports _ (
        add_cve_matches-keeps (fp_to_host assets []) cve_matches _ (
          add_leaks-keeps leaks _ (add_secrets-keeps secrets _ (add_findings-keeps findings _ h)))))
