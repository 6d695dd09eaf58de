-- ===== src/Netguard.antt =====
-- core/netguard.py and modules/safe_http.py: which addresses a fetch inside the process may connect to.
-- `is_global` is the flag of Python's ipaddress; aiohttp is given by the test with which it passes a
-- host by its resolver, and by the resolver that it wraps.
pub mod Public
use Prim.Native.Char.{code}
use exact_surface.Prelude.{
  ℕ, String, Bool, true, false, not, ◌&&◌, ◌||◌, Option, none, some, List, [], ◌∷◌, keep, nat_beq,
  if◌then◌else◌,
}
use exact_surface.Scope.Address.{
  Address, Parsers, is_unspecified, is_loopback, is_link_local, is_multicast,
}

abbrev pub is_bracket : ℕ → Bool
is_bracket c = nat_beq c b'[' || nat_beq c b']'

abbrev pub is_empty : String → Bool
is_empty String.[] = true
is_empty (String.◌∷◌ c s) = false

-- host.strip("[]")
abbrev pub lstrip_brackets : String → String
lstrip_brackets String.[] = String.[]
lstrip_brackets (String.◌∷◌ c s) =
    let rest = lstrip_brackets s in if is_bracket (code c) then rest else String.◌∷◌ c s

abbrev pub rstrip_brackets : String → String
rstrip_brackets String.[] = String.[]
rstrip_brackets (String.◌∷◌ c s) =
    let rest = rstrip_brackets s in
    if is_empty rest && is_bracket (code c) then String.[] else String.◌∷◌ c rest

-- The outcome of a call that may raise ForbiddenTarget.
pub data Guarded (A : Type 0) : Type 0 where
  passes : A → Guarded A
  forbidden_target : String → Guarded A

module _ (p : Parsers) (is_global : Address → Bool) where
  unfoldable pub is_forbidden_address : Address → Bool
  unfolding is_loopback is_link_local is_multicast
  is_forbidden_address a =
      not (is_global a)
      || (p.is_private a
          || (is_loopback a
              || (is_link_local a || (p.is_reserved a || (is_multicast a || is_unspecified a)))))

  unfoldable pub is_forbidden_target_ip : String → Bool
  unfolding is_forbidden_address
  is_forbidden_target_ip ip = elim (p.ip_address ip) [
    | none ↦ true
    | some a ↦ is_forbidden_address a
  ]

  unfoldable pub is_ip_literal : String → Bool
  is_ip_literal host = elim (p.ip_address (rstrip_brackets (lstrip_brackets host))) [
    | none ↦ false
    | some a ↦ true
  ]

  -- `assert_url_allowed`, for urlsplit(url).hostname.
  unfoldable pub assert_url_allowed : String → Guarded (Unit {0})
  unfolding is_ip_literal is_forbidden_target_ip
  assert_url_allowed host =
      if not (is_empty host) && (is_ip_literal host && is_forbidden_target_ip host)
      then forbidden_target host
      else passes tt

  abbrev pub some_host : String → List String → Guarded (List String)
  some_host host [] = forbidden_target host
  some_host host (h ∷ hs) = passes (h ∷ hs)

  -- `_Guarded.resolve`, for the answer of the resolver that it wraps.
  unfoldable pub resolve : String → List String → Guarded (List String)
  unfolding is_forbidden_target_ip
  resolve host hosts = some_host host (keep (λ h. not (is_forbidden_target_ip h)) hosts)

  -- The addresses that `guarded_post` may connect to.
  unfoldable pub guarded_post :
      (String → Bool) → (String → List String) → String → Guarded (List String)
  unfolding assert_url_allowed resolve
  guarded_post bypasses base host = elim (assert_url_allowed host) [
    | forbidden_target h ↦ forbidden_target h
    | passes u ↦ if bypasses host then passes (host ∷ []) else resolve host (base host)
  ]
