-- ===== src/Playground/Run/Freeform.antt =====
-- pipelines/playground.py: what runs under an ephemeral scope, and what that scope permits.
use exact_surface.Prelude.{
  String, ◌≡◌, ◌≢◌, refl, ap, Bool, true, false, Option, none, some, List, [], ◌∷◌, any, any-true,
  ltb, length, arith, In, All, inl, inr, ◌⊎◌, get, string_eq, Bool-cases, Dict,
}
use exact_surface.Scope.Address.{parse_networks}
use exact_surface.Scope.Host.{Text, normal, owns_host, on_exclusion_list}
use exact_surface.Scope.Engine.{
  Engine, ProgramScope, Action, http_layer_actions, private, classify_ip, evaluate,
}
use exact_surface.Scope.Rounds.{Ownership, by_override, by_lab, by_attestation, by_range}
use exact_surface.Scope.Grants.{verdict_permits, evaluate_sound}
use exact_surface.Scope.Confirm.{Program as ScopeFields}
use exact_surface.Playground.{Tier, pipeline, utility, source, output, NodeSpec, Node, Graph}
use exact_surface.Playground.Targets.{unique, parse_hosts}
use exact_surface.Playground.Run.{
  max_freeform_hosts, Wires, get_or_empty, Values, Task, gives, denied, calls, scans,
  scans_freeform, Result, produced, timed_out, refused, raised, State, is_target_node,
  freeform_scope, feeding, freeform_hosts_feeding, run_pipeline_freeform, run_source, run_scan,
  run_node, conclude,
}

-- An ephemeral scope permits an action on a host with addresses only if the host is under one of
-- the scope's names and not excluded by the program, and beyond the HTTP layer only in lab mode
-- and on private addresses.
pub freeform_scope-IsNarrow :
    (e : Engine) (hosts : List Text) (p : ScopeFields) (host : Text) (ip : String)
    (ips : List String) (a : Action)
    → verdict_permits (evaluate e (freeform_scope hosts p) host (ip ∷ ips)) a ≡ true
    → (owns_host hosts (normal host) ≡ true)
      × (on_exclusion_list p.excluded_hosts (normal host) ≡ false)
      × ((http_layer_actions a ≡ true)
          ⊎ ((e.allow_private ≡ true) × All (λ i. classify_ip e i ≡ private) (ip ∷ ips)))
unfolding freeform_scope parse_networks
freeform_scope-IsNarrow e hosts p host ip ips a h =
    let (admits, grounds) = evaluate_sound e (freeform_scope hosts p) host (ip ∷ ips) a h in
    (
      elim admits.authority [ inl o ↦ o | inr z ↦ cc ],
      admits.not_listed,
      elim grounds.1 [ inl l ↦ inl l | inr o ↦ inr (lab_lem o.0, lab_all (ip ∷ ips) o) ],
    )
  where
    lab_lem : {i : String} → Ownership e (freeform_scope hosts p) i → e.allow_private ≡ true
    lab_lem (by_override z) = cc
    lab_lem (by_lab t c) = t
    lab_lem (by_attestation z c) = cc
    lab_lem (by_range x n q c m k) = elim m [ ]

    lab_one : (i : String) → Ownership e (freeform_scope hosts p) i → classify_ip e i ≡ private
    lab_one i (by_override z) = cc
    lab_one i (by_lab t c) = c
    lab_one i (by_attestation z c) = cc
    lab_one i (by_range x n q c m k) = elim m [ ]

    lab_all :
        (is : List String)
        → All (Ownership e (freeform_scope hosts p)) is
        → All (λ i. classify_ip e i ≡ private) is
    lab_all [] o = tt
    lab_all (i ∷ is) o = (lab_one i o.0, lab_all is o.1)

module _ {V : Type 0} (values : Values V) (routes : String → Bool) (program : Option ScopeFields)
    (g : Graph) where
  -- The grounds of a task under an ephemeral scope.
  pub record IsWaived (wires : Dict String (String × String)) (scope : ProgramScope) : Type 0 where
    pub fields : ScopeFields
    pub hosts : List Text
    pub stored : program ≡ some fields
    pub narrow : scope ≡ freeform_scope hosts fields
    pub some_host : hosts ≢ []
    pub wire : String × (String × String)
    pub direct : In wire wires
    pub from_target : is_target_node (get wire.1.0 g.nodes) ≡ true

  abbrev pub Grounded : Dict String (String × String) → Task V → Type 0
  Grounded wires (gives made) = Unit
  Grounded wires denied = Unit
  Grounded wires (calls impl inputs) = Unit
  Grounded wires (scans name targets) = Unit
  Grounded wires (scans_freeform name scope targets) = IsWaived wires scope

  feeding_none :
      (outputs : Dict String (Dict String V)) (wires : Dict String (String × String))
      → any (λ p. is_target_node (get p.1.0 g.nodes)) wires ≡ false
      → feeding values routes program g outputs wires ≡ []
  unfolding feeding
  feeding_none outputs [] h = refl
  feeding_none outputs ((port, src) ∷ rest) h =
      let f : is_target_node (get src.0 g.nodes) ≡ false = ground (arith, h) in
      rw (f, feeding) (feeding_none outputs rest (ground (arith, h)))

  run_scan-Grounded :
      (wires : Dict String (String × String)) (name : String) (hosts targets : List Text)
      → (hosts ≢ [] → any (λ p. is_target_node (get p.1.0 g.nodes)) wires ≡ true)
      → Grounded wires (run_scan values routes program g name hosts targets)
  unfolding run_pipeline_freeform
  run_scan-Grounded wires name [] targets k = tt
  run_scan-Grounded wires name (h ∷ hs) targets k = go program refl
    where
      go :
          (o : Option ScopeFields)
          → program ≡ o
          → Grounded wires (run_pipeline_freeform values routes program g name (h ∷ hs) targets)
      go none q = rw (q, Grounded) tt
      go (some p) q = elim (Bool-cases (routes name)) [
        | inr f ↦ rw (q, f, Grounded) tt
        | inl t ↦
            let (wire, direct, target) =
              any-true (λ p. is_target_node (get p.1.0 g.nodes)) wires (k (λ z. cc)) in
            rw (q, t, Grounded)
              (record {
                fields = p;
                hosts = h ∷ hs;
                stored = q;
                narrow = refl;
                some_host = λ z. cc;
                wire = wire;
                direct = direct;
                from_target = target;
              })
      ]

  feeding_some :
      (outputs : Dict String (Dict String V)) (wires : Dict String (String × String))
      → freeform_hosts_feeding values routes program g outputs wires ≢ []
      → any (λ p. is_target_node (get p.1.0 g.nodes)) wires ≡ true
  unfolding freeform_hosts_feeding unique
  feeding_some outputs wires k =
      elim (Bool-cases (any (λ p. is_target_node (get p.1.0 g.nodes)) wires)) [
        | inl t ↦ t
        | inr f ↦ absurd (k (ap (unique []) (feeding_none outputs wires f)))
      ]

  run_source-Grounded :
      (wires : Dict String (String × String)) (hosts : List Text)
      → Grounded wires (run_source values routes program g hosts)
  run_source-Grounded wires [] = tt
  run_source-Grounded wires (h ∷ hs) =
      elim (Bool-cases (ltb max_freeform_hosts (length (h ∷ hs)))) [
        | inl t ↦ rw (t, Grounded) tt
        | inr f ↦ rw (f, Grounded) tt
      ]

  pub run_node-Grounded :
      (spec : NodeSpec) (node : Node) (inputs : Dict String V)
      (wires : Dict String (String × String))
      → (outputs : Dict String (Dict String V))
      → Grounded wires (run_node values routes program g spec node inputs wires outputs)
  unfolding run_node
  run_node-Grounded spec node inputs wires outputs = go spec.tier refl
    where
      go :
          (t : Tier)
          → spec.tier ≡ t
          → Grounded wires (run_node values routes program g spec node inputs wires outputs)
      go source q =
          rw (q, run_node) (run_source-Grounded wires (parse_hosts values.str_lower node.hosts))
      go output q = rw (q, run_node) tt
      go utility q = rw (q, run_node) tt
      go pipeline q =
          rw (q, run_node)
            (run_scan-Grounded wires spec.pipeline_name
              (freeform_hosts_feeding values routes program g outputs wires) _
              (feeding_some outputs wires))

  -- Every task that was started has its grounds.
  abbrev pub IsCovered : Wires → State V → Type 0
  IsCovered w s = All (λ p. Grounded (get_or_empty p.0 w) p.1) s.started

  pub conclude-IsCovered :
      (w : Wires) (id : String) (r : Result V) (s : State V)
      → IsCovered w s
      → IsCovered w (conclude id r s)
  conclude-IsCovered w id (produced made) s h = h
  conclude-IsCovered w id timed_out s h = h
  conclude-IsCovered w id refused s h = h
  conclude-IsCovered w id raised s h = h
