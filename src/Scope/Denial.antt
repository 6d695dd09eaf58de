-- ===== src/Scope/Denial.antt =====
-- core/scope.py: what `evaluate` refuses, whatever else holds.
use exact_surface.Prelude.{
  ℕ, nat_beq, String, ◌≡◌, refl, Bool, true, false, not, ◌&&◌, some, List, [], ◌∷◌, arith, In, here,
  there, inl, inr, ap, sym, ◌⊎◌, ◌∙◌,
}
use exact_surface.Scope.Address.{
  Version, v4, v6, link_local_in, loopback_in, Address, in_any, parse_networks, is_link_local,
  is_loopback,
}
use exact_surface.Scope.Host.{Text, normal, owns_host, on_exclusion_list}
use exact_surface.Scope.Engine.{
  link_local, hard_deny, is_private_class, ProgramScope, Engine, classify_address, classify_ip,
  Scan, denied, bad_address, classes, Round, stop, fault, keep_class, blocked, judge, round, join,
  scan, Verdict, decision, value_error, conclude, on_addresses, evaluate,
}

-- A verdict that lets nothing through: a denial, or the exception.
abbrev pub refuses : Verdict → Bool
refuses (decision d) = not d.allowed
refuses (value_error ip) = true

abbrev pub stops : Round → Bool
stops (keep_class c own) = false
stops _ = true

abbrev pub ends : Scan → Bool
ends (classes cs all) = false
ends _ = true

ends-join : (r : Round) (s : Scan) → (stops r ≡ true) ⊎ (ends s ≡ true) → ends (join r s) ≡ true
ends-join (stop x c) s h = refl
ends-join (fault ip) s h = refl
ends-join (keep_class c own) (denied x d) h = refl
ends-join (keep_class c own) (bad_address ip) h = refl
ends-join (keep_class c own) (classes cs all) h = ground arith

link_local_excludes :
    (v : Version) (n : ℕ)
    → link_local_in v n ≡ true
    → (nat_beq n 0 ≡ false) × (loopback_in v n ≡ false)
link_local_excludes v4 n h = ground arith
link_local_excludes v6 n h = ground arith

classify-link_local :
    (e : Engine) (a : Address) → is_link_local a ≡ true → classify_address e a ≡ link_local
unfolding classify_address is_link_local is_loopback
classify-link_local e a h = let (z, l) = link_local_excludes a.version a.number h in rw (z, l, h)

module _ (e : Engine) (scope : ProgramScope) where
  -- One round that stops ends the whole scan, wherever the address stands in the list.
  ends-scan :
      (ips : List String) {ip : String}
      → In ip ips
      → stops (round e scope ip) ≡ true
      → ends (scan e scope ips) ≡ true
  unfolding scan
  ends-scan [] m h = elim m [ ]
  ends-scan (x ∷ ips) (here p) h =
      ends-join (round e scope x) (scan e scope ips)
        (inl (ap (λ y. stops (round e scope y)) (sym p) ∙ h))
  ends-scan (x ∷ ips) (there m) h =
      ends-join (round e scope x) (scan e scope ips) (inr (ends-scan ips m h))

  refuses-conclude : (h : Text) (s : Scan) → ends s ≡ true → refuses (conclude e scope h s) ≡ true
  unfolding conclude
  refuses-conclude h (denied r c) p = refl
  refuses-conclude h (bad_address ip) p = refl
  refuses-conclude h (classes cs all) p = cc

  refuses-on_addresses :
      (h : Text) (ips : List String) {ip : String}
      → In ip ips
      → stops (round e scope ip) ≡ true
      → refuses (on_addresses e scope h ips) ≡ true
  unfolding on_addresses
  refuses-on_addresses h [] m s = elim m [ ]
  refuses-on_addresses h (x ∷ ips) m s = refuses-conclude h _ (ends-scan (x ∷ ips) m s)

  pub refuses-evaluate :
      (host : Text) (ips : List String) {ip : String}
      → In ip ips
      → stops (round e scope ip) ≡ true
      → refuses (evaluate e scope host ips) ≡ true
  unfolding evaluate
  refuses-evaluate host ips m s = ground (arith, refuses-on_addresses (normal host) ips m s)

  round-blocked :
      (ip : String) → blocked e scope (classify_ip e ip) ≡ true → stops (round e scope ip) ≡ true
  unfolding round
  round-blocked ip h = rw h

  blocked-link_local :
      (ip : String) (a : Address)
      → e.parsers.ip_address ip ≡ some a
      → is_link_local a ≡ true
      → blocked e scope (classify_ip e ip) ≡ true
  unfolding blocked classify_ip
  blocked-link_local ip a p l = ground (arith, classify-link_local e a l)

  -- An address whose class is denied, with no lab exception and no override, is enough to refuse
  -- the host, whatever the other addresses are.
  pub evaluate-internal :
      (host : Text) (ips : List String) (ip : String)
      → In ip ips
      → hard_deny (classify_ip e ip) ≡ true
      → (e.allow_private && is_private_class (classify_ip e ip)) ≡ false
      → scope.scope_override ≡ false
      → refuses (evaluate e scope host ips) ≡ true
  unfolding blocked
  evaluate-internal host ips ip m hard lab over =
      refuses-evaluate host ips m (round-blocked ip (rw (hard, lab, over)))

  -- A link-local address of either version, 169.254.169.254 among them, is enough to refuse the
  -- host, under the override and in lab mode too.
  pub evaluate-metadata :
      (host : Text) (ips : List String) (ip : String) (a : Address)
      → In ip ips
      → e.parsers.ip_address ip ≡ some a
      → is_link_local a ≡ true
      → refuses (evaluate e scope host ips) ≡ true
  evaluate-metadata host ips ip a m p l =
      refuses-evaluate host ips m (round-blocked ip (blocked-link_local ip a p l))

  -- An address in an excluded range refuses the host, under the override too.
  pub evaluate-excluded_cidr :
      (host : Text) (ips : List String) (ip : String) (a : Address)
      → In ip ips
      → e.parsers.ip_address ip ≡ some a
      → in_any a (parse_networks e.parsers scope.excluded_cidrs) ≡ true
      → refuses (evaluate e scope host ips) ≡ true
  unfolding round judge
  evaluate-excluded_cidr host ips ip a m p x = refuses-evaluate host ips m (ground arith)

  -- A host on the exclusion list is denied, under the override too, and so is a host outside every
  -- verified apex unless the override is on.
  pub evaluate-host :
      (host : Text) (ips : List String)
      → (on_exclusion_list scope.excluded_hosts (normal host) ≡ true
          → refuses (evaluate e scope host ips) ≡ true)
        × (owns_host scope.verified_apexes (normal host) ≡ false
            → scope.scope_override ≡ false
            → refuses (evaluate e scope host ips) ≡ true)
  unfolding evaluate
  evaluate-host host ips = ground arith
