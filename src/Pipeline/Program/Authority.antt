-- ===== src/Pipeline/Program/Authority.antt =====
-- pipelines/orchestrate.py and pipelines/dispatch.py: nothing runs without a current authorization.
use exact_surface.Prelude.{
  String, ◌≡◌, ◌≢◌, refl, sym, ap, ◌∙◌, ◌↔◌, inl, inr, Bool, true, false, not, ◌&&◌, ◌||◌, Option,
  none, some, List, ◌∷◌, arith, All, Dict, string_eq, Bool-cases, Option-cases, subst,
}
use mathlib.Core.Option.{some-injective}
use exact_surface.Scope.Host.{Text}
use exact_surface.Scope.Engine.{Engine, ProgramScope, Action, http_layer_actions, evaluate}
use exact_surface.Scope.Grants.{verdict_permits}
use exact_surface.Scope.Confirm.{
  Authorization, auth_is_current, build_program_scope, confirm_authorization, or_empty,
}
use exact_surface.Scope.Confirm.Chain.{ReadsNetworks, IsAnnounced, aggressive-IsAnnounced}
use exact_surface.Taskqueue.Cadence.{Raw}
use exact_surface.Modules.{resolve}
use exact_surface.Modules.Registry.{modules}
use exact_surface.Taskqueue.Timeouts.{effective_timeouts}
use exact_surface.Pipeline.{Ending, completed, was_cancelled, killed, Report}
use exact_surface.Pipeline.Program.{
  ProgramDoc, Launch, Started, launched, or_true, has_returned, launch, run_authorized,
  check_authorized, run_program, is_registered, is_on, is_duplicate, run_pipeline,
}

-- The stored program and authorization that a run rests on.
pub record Rests (program : Option ProgramDoc) (auth : Option Authorization) : Type 0 where
  pub doc : ProgramDoc
  pub record_of : Authorization
  pub has_program : program ≡ some doc
  pub has_auth : auth ≡ some record_of
  pub verified : record_of.apex_verified ≡ true
  pub not_revoked : record_of.revoked ≡ false

launch_of : {R : Type 0} → Started R → Option Launch
launch_of (launched l r) = some l
launch_of _ = none

result_of : {R : Type 0} → Started R → Option R
result_of (launched l r) = some r
result_of _ = none

launched_parts :
    {R : Type 0} (l : Launch) (r : R) (m : Bool) (l' : Launch) (r' : R) (m' : Bool)
    → ◌≡◌ {A = Started R × Bool} (launched l r, m) (launched l' r', m')
    → (l ≡ l') × (r ≡ r') × (m ≡ m')
unfolding launch_of result_of
launched_parts l r m l' r' m' h = (
  some-injective _ _ (ap (λ x. launch_of x.0) h),
  some-injective _ _ (ap (λ x. result_of x.0) h),
  ap (λ x. x.1) h,
)

module _ (e : Engine) (tenant_timeouts : Dict String Raw) where
  -- What a full run was launched on.
  pub record IsAuthorized (force : Bool) (program : Option ProgramDoc) (auth : Option Authorization)
      (ranges : Option (List String)) (l : Launch) (marked : Bool) (r : Report) : Type 0 where
    pub rests : Rests program auth
    pub wanted : (force || or_true rests.doc.enabled) ≡ true
    pub scope :
        l.scope
        ≡ build_program_scope rests.doc.scope_fields
            (some (confirm_authorization e ranges rests.record_of))
    pub marks : (marked ≡ true) ↔ ((r.ending ≢ killed) × (rests.doc.initial_scan_completed ≡ false))

  returned-killed :
      (x : Ending) (b : Bool) → ((has_returned x && not b) ≡ true) ↔ ((x ≢ killed) × (b ≡ false))
  returned-killed completed b = (λ h. (λ k. cc, ground (arith, h)), λ h. ground (arith, h.1))
  returned-killed was_cancelled b = (λ h. (λ k. cc, ground (arith, h)), λ h. ground (arith, h.1))
  returned-killed killed b = (λ h. cc, λ h. absurd (h.0 refl))

  marks_lem :
      (x y : Ending) (b m : Bool)
      → x ≡ y
      → (has_returned x && not b) ≡ m
      → (m ≡ true) ↔ ((y ≢ killed) × (b ≡ false))
  marks_lem x y b m e q =
      let base = returned-killed y b in
      let same : (has_returned y && not b) ≡ m = ap (λ z. has_returned z && not b) (sym e) ∙ q in
      (λ t. base.0 (same ∙ t), λ h. sym same ∙ base.1 h)

  -- Nothing of a program runs in full without a current authorization for its verified domain, nor, unless
  -- a user forces it, while it is paused; the run's scope is that of the ranges that were confirmed
  -- for it just before; and the first run that returns marks the program as bootstrapped, also a run
  -- that was stopped.
  pub run_program-IsAuthorized :
      (force : Bool) (program : Option ProgramDoc) (auth : Option Authorization)
      (ranges : Option (List String)) (full : Launch → Report) (l : Launch) (r : Report)
      (marked : Bool)
      → run_program e tenant_timeouts force program auth ranges full ≡ (launched l r, marked)
      → IsAuthorized force program auth ranges l marked r
  unfolding run_program check_authorized run_authorized launch auth_is_current
  run_program-IsAuthorized force none auth ranges full l r marked h = cc
  run_program-IsAuthorized force (some p) none ranges full l r marked h = ground (arith, h)
  run_program-IsAuthorized force (some p) (some a) ranges full l r marked h =
      elim (Bool-cases (not force && not (or_true p.enabled))) [
        | inl t ↦ cc (rw (t, run_program) at h)
        | inr f ↦ elim (Bool-cases (auth_is_current (some a))) [
          | inr n ↦ cc (rw (f, run_program, check_authorized, n) at h)
          | inl c ↦
              let (el, er, em) =
                launched_parts _ _ _ l r marked (rw (f, run_program, check_authorized, c) at h) in
              record {
                rests = record {
                  doc = p;
                  record_of = a;
                  has_program = refl;
                  has_auth = refl;
                  verified = ground (arith, c);
                  not_revoked = ground (arith, c);
                };
                wanted = ground (arith, f);
                scope = sym (ap (λ (x : Launch). x.scope) el);
                marks =
                    marks_lem _ r.ending p.initial_scan_completed marked
                      (ap (λ (x : Report). x.ending) er) em;
              }
        ]
      ]

  -- Under the scope of a full run that `run_program` has launched, with the override, the
  -- attestation and lab mode off, and with the documented parsing of networks, an action
  -- beyond the HTTP layer is permitted on a host with addresses only if each of them lies in a
  -- range that the ASN lookup announced for the domain in this call.
  pub run_program-IsAnnounced :
      (force : Bool) (program : Option ProgramDoc) (auth : Option Authorization)
      (ranges : Option (List String)) (full : Launch → Report) (l : Launch) (r : Report)
      (marked : Bool) (host : Text) (ip : String) (ips : List String) (a : Action)
      → run_program e tenant_timeouts force program auth ranges full ≡ (launched l r, marked)
      → ReadsNetworks e
      → l.scope.scope_override ≡ false
      → l.scope.scan_shared_infra ≡ false
      → e.allow_private ≡ false
      → http_layer_actions a ≡ false
      → verdict_permits (evaluate e l.scope host (ip ∷ ips)) a ≡ true
      → All (IsAnnounced e (or_empty ranges)) (ip ∷ ips)
  unfolding build_program_scope
  run_program-IsAnnounced force program auth ranges full l r marked host ip ips a h back over shared
        lab act v =
      let g = run_program-IsAuthorized force program auth ranges full l r marked h in
      aggressive-IsAnnounced e g.rests.doc.scope_fields g.rests.record_of ranges host ip ips a back
        (sym (ap (λ (s : ProgramScope). s.scope_override) g.scope) ∙ over)
        (sym (ap (λ (s : ProgramScope). s.scan_shared_infra) g.scope) ∙ shared) lab act
        (subst (λ s. verdict_permits (evaluate e s host (ip ∷ ips)) a ≡ true) g.scope v)

-- What a phase was launched on.
pub record IsCleared {R : Type 0} (tenant_timeouts : Dict String Raw)
    (routes : String → Option (Launch → R)) (pipeline : String) (targets : List String)
    (active : Bool) (program : Option ProgramDoc) (auth : Option Authorization) (l : Launch) (r : R)
    : Type 0 where
  pub rests : Rests program auth
  pub unpaused : or_true rests.doc.enabled ≡ true
  pub modules : l.modules ≡ resolve modules rests.doc.enabled_modules rests.doc.disabled_modules
  pub timeouts : l.timeouts ≡ effective_timeouts rests.doc.timeout_overrides tenant_timeouts
  pub on : is_registered pipeline ≡ true → is_on l.modules pipeline ≡ true
  pub scope : l.scope ≡ build_program_scope rests.doc.scope_fields (some rests.record_of)
  pub alone : is_duplicate targets active ≡ false
  pub route : Launch → R
  pub routed : routes pipeline ≡ some route
  pub ran : r ≡ route l

launched_both :
    {R : Type 0} (l : Launch) (r : R) (l' : Launch) (r' : R)
    → ◌≡◌ {A = Started R} (launched l r) (launched l' r')
    → (l ≡ l') × (r ≡ r')
unfolding launch_of result_of
launched_both l r l' r' h =
    (some-injective _ _ (ap launch_of h), some-injective _ _ (ap result_of h))

-- No phase of a program runs without a current authorization for its verified domain, while it is
-- paused, while it is a registered module that `resolve` does not enable for the program's choices,
-- or, for the whole program, while another run of the phase is under way; and it runs under the scope
-- of the stored authorization, with the modules that `resolve` makes of the program's choices and
-- the timeouts of the program and its tenant.
pub run_pipeline-IsCleared :
    {R : Type 0} (tenant_timeouts : Dict String Raw) (routes : String → Option (Launch → R))
    (pipeline : String) (targets : List String) (active : Bool) (program : Option ProgramDoc)
    (auth : Option Authorization) (l : Launch) (r : R)
    → run_pipeline tenant_timeouts routes pipeline targets active program auth ≡ launched l r
    → IsCleared tenant_timeouts routes pipeline targets active program auth l r
unfolding run_pipeline launch auth_is_current
run_pipeline-IsCleared tenant_timeouts routes pipeline targets active none auth l r h = cc
run_pipeline-IsCleared tenant_timeouts routes pipeline targets active (some p) none l r h =
    ground (arith, h)
run_pipeline-IsCleared tenant_timeouts routes pipeline targets active (some p) (some a) l r h =
    let m = (launch p (some a) tenant_timeouts).modules in
    elim (Bool-cases (not (or_true p.enabled))) [
      | inl t ↦ cc (rw (t, run_pipeline) at h)
      | inr f ↦ elim (Bool-cases (auth_is_current (some a))) [
        | inr n ↦ cc (rw (f, run_pipeline, n) at h)
        | inl c ↦ elim (Bool-cases (is_registered pipeline && not (is_on m pipeline))) [
          | inl t ↦ cc (rw (f, run_pipeline, c, t) at h)
          | inr g ↦ elim (Option-cases (routes pipeline)) [
            | inl n ↦ cc (rw (f, run_pipeline, c, g, n) at h)
            | inr (route, q) ↦ elim (Bool-cases (is_duplicate targets active)) [
              | inl t ↦ cc (rw (f, run_pipeline, c, g, q, t) at h)
              | inr u ↦
                  let (el, er) =
                    launched_both (launch p (some a) tenant_timeouts) _ l r
                      (rw (f, run_pipeline, c, g, q, u) at h) in
                  record {
                    rests = record {
                      doc = p;
                      record_of = a;
                      has_program = refl;
                      has_auth = refl;
                      verified = ground (arith, c);
                      not_revoked = ground (arith, c);
                    };
                    unpaused = ground (arith, f);
                    on =
                        subst
                          (λ (x : Launch).
                            is_registered pipeline ≡ true → is_on x.modules pipeline ≡ true)
                          el (ground (arith, g));
                    modules = sym (ap (λ (x : Launch). x.modules) el);
                    timeouts = sym (ap (λ (x : Launch). x.timeouts) el);
                    scope = sym (ap (λ (x : Launch). x.scope) el);
                    alone = u;
                    route = route;
                    routed = q;
                    ran = sym er ∙ ap route el;
                  }
            ]
          ]
        ]
      ]
    ]
