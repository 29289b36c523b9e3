-- ===== src/Device/Discovery/Registry.antt =====
-- discovery.rs: which devices are known after a scan.
use text.Mathlib.TextEquality.{eq_iff}
use igrisv.Base.{
  ℕ, String, ◌≡◌, refl, ap, ◌∙◌, true, not, ◌&&◌, Option, some, List, [], ◌∷◌, arith, leb, ◌==◌,
  if◌then◌else◌, length, any, all, nat_key, string_key, lookup, Unique, kept, lookup-insert,
  lookup-retain, insert-Unique, same, zero, suc, ◌+◌, Bool, ltb, keep, Assoc, values, retain,
  all-sort_by, length-sort_by,
}
use igrisv.Device.Discovery.{
  Discovery, merge, prune, same_addr, subnet_targets, merge_all, is_live, known, answered, scan,
  DiscoveredDevice, hosts, by_id, Ipv4Addr,
}

-- The last of the replies with an id.
abbrev pub latest :
    String → Option DiscoveredDevice → List DiscoveredDevice → Option DiscoveredDevice
latest id before [] = before
latest id before (d ∷ ds) = latest id (if same d.id id then some d else before) ds

merge_all-Unique :
    (r : Discovery) (ds : List DiscoveredDevice)
    → Unique r.devices
    → Unique (merge_all r ds).devices
unfolding merge
merge_all-Unique r [] u = u
merge_all-Unique r (d ∷ ds) u = merge_all-Unique (merge r d) ds (insert-Unique d.id d r.devices u)

lookup-merge_all :
    (r : Discovery) (ds : List DiscoveredDevice) (id : String)
    → lookup id (merge_all r ds).devices ≡ latest id (lookup id r.devices) ds
unfolding merge
lookup-merge_all r [] id = refl
lookup-merge_all r (d ∷ ds) id =
    lookup-merge_all (merge r d) ds id
    ∙ ap (λ o. latest id o ds) (ground (arith, lookup-insert d.id id d r.devices, eq_iff d.id id))

all-retain :
    (p : DiscoveredDevice → Bool) (m : Assoc String DiscoveredDevice)
    → all p (values (retain p m)) ≡ true
unfolding retain
all-retain p [] = refl
all-retain p ((k, d) ∷ m) = ground (arith, all-retain p m)

length-values : (m : Assoc String DiscoveredDevice) → length (values m) ≡ length m
length-values [] = refl
length-values (e ∷ m) = ap suc (length-values m)

-- After a scan a device is known exactly as its last reply told it, or as it was known before if it did
-- not reply, if that was less than two minutes ago; else it is not known. The list that the scan
-- returns has as many devices as are known, and all of them are live.
pub scan_lem :
    (r : Discovery) (now : ℕ) (results : List (Option DiscoveredDevice)) (id : String)
    → Unique r.devices
    → let out = scan r now results in
      (lookup id out.1.devices
        ≡ kept (is_live now) (latest id (lookup id r.devices) (answered results)))
      × (all (is_live now) out.0 ≡ true)
      × (length out.0 ≡ length out.1.devices)
unfolding scan prune known
scan_lem r now results id u =
    let m = (merge_all r (answered results)).devices in
    (
      lookup-retain (is_live now) id m (merge_all-Unique r (answered results) u)
          ∙ ap (kept (is_live now)) (lookup-merge_all r (answered results) id),
      all-sort_by (is_live now) by_id (values (retain (is_live now) m))
          ∙ all-retain (is_live now) m,
      length-sort_by by_id (values (retain (is_live now) m))
          ∙ length-values (retain (is_live now) m),
    )

any-keep :
    (p q : Ipv4Addr → Bool) (xs : List Ipv4Addr) → any p (keep q xs) ≡ any (λ x. q x && p x) xs
any-keep p q [] = refl
any-keep p q (x ∷ xs) = ground (arith, any-keep p q xs)

-- A test that a host passes by its last octet.
any-hosts :
    (test : Ipv4Addr → Bool) (net : Bool) (a b c d z : ℕ)
    → ((n : ℕ) → test (a, b, c, n) ≡ (net && (z == n && not (z == d))))
    → (n count : ℕ)
    → any test (hosts (a, b, c, d) n count)
      ≡ (net && ((leb n z && ltb z (n + count)) && not (z == d)))
unfolding hosts
any-hosts test net a b c d z h n zero = ground arith
any-hosts test net a b c d z h n (suc count) =
    ground (arith, any-hosts test net a b c d z h (n + 1) count, h n)

on_host :
    (a b c d w x y z n : ℕ)
    → (not (same_addr (a, b, c, n) (a, b, c, d)) && same_addr (w, x, y, z) (a, b, c, n))
      ≡ ((w == a && x == b && y == c) && (z == n && not (z == d)))
on_host a b c d w x y z n = ground arith

-- The targets of an address are the hosts of its /24 network, from 1 to 254, but itself.
pub subnet_targets_iff :
    (a b c d w x y z : ℕ)
    → any (same_addr (w, x, y, z)) (subnet_targets (a, b, c, d))
      ≡ ((w == a && x == b && y == c) && ((leb 1 z && ltb z 255) && not (z == d)))
unfolding subnet_targets
subnet_targets_iff a b c d w x y z =
    let ip : Ipv4Addr = (a, b, c, d) in
    any-keep (same_addr (w, x, y, z)) (λ cand. not (same_addr cand ip)) (hosts ip 1 254)
    ∙ any-hosts (λ cand. not (same_addr cand ip) && same_addr (w, x, y, z) cand)
        (w == a && x == b && y == c) a b c d z (on_host a b c d w x y z) 1 254
