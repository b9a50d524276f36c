-- ===== src/Server/Hardware/Choice.antt =====
-- Which decoding device is chosen.
use jellyfin_recents.Prelude.{
  ℕ, ◌≤◌, ◌≡◌, refl, sym, subst, true, false, Option, none, some, List, [], ◌∷◌, arith, leb, any,
  All, Bool-cases, Option-cases, inl, inr, leb→le,
}
use jellyfin_recents.Prelude.Options.{◌>>=◌}
use jellyfin_recents.Wire.Bytes.{Text}
use jellyfin_recents.Wire.Requests.Types.{DeviceStrategy, performance, idle_resource, HwDecodeFlags}
use jellyfin_recents.Wire.Responses.Send.{
  DecodeVendor, nvidia, amd, intel, VendorCapability, HwDecodeCapabilities,
}
use jellyfin_recents.Server.Hardware.{
  vendor_beq, vendor_order, has_vendor, pick_performance_vendor, with_load, is_empty, least_of,
  min_by_load, pick_idle_resource_vendor, or_else, pick_vendor, request_for, supported_vendors,
  resolve_hw_decode_request,
}

-- A vendor that one of the capabilities names.
abbrev pub IsPicked : List VendorCapability → Option DecodeVendor → Type 0
IsPicked cs o = (v : DecodeVendor) × (o ≡ some v) × (has_vendor v cs ≡ true)

vendor_beq_refl : (v : DecodeVendor) → vendor_beq v v ≡ true
vendor_beq_refl nvidia = refl
vendor_beq_refl amd = refl
vendor_beq_refl intel = refl

has_own : (c : VendorCapability) (cs : List VendorCapability) → has_vendor c.vendor (c ∷ cs) ≡ true
unfolding has_vendor
has_own c cs = rw (vendor_beq_refl c.vendor)

none_left :
    (v : DecodeVendor) (cs : List VendorCapability)
    → has_vendor v cs ≡ true
    → has_vendor nvidia cs ≡ false
    → has_vendor amd cs ≡ false
    → has_vendor intel cs ≡ false
    → ⊥
none_left nvidia cs h n a i = cc
none_left amd cs h n a i = cc
none_left intel cs h n a i = cc

-- With a supported vendor there is one to pick.
performance-IsPicked :
    (c : VendorCapability) (cs : List VendorCapability)
    → IsPicked (c ∷ cs) (pick_performance_vendor (c ∷ cs))
unfolding pick_performance_vendor
performance-IsPicked c cs = elim (Bool-cases (has_vendor nvidia (c ∷ cs))) [
  | inl first ↦ (nvidia, rw first, first)
  | inr no_nvidia ↦ elim (Bool-cases (has_vendor amd (c ∷ cs))) [
    | inl second ↦ (amd, rw (no_nvidia, second), second)
    | inr no_amd ↦ elim (Bool-cases (has_vendor intel (c ∷ cs))) [
      | inl third ↦ (intel, rw (no_nvidia, no_amd, third), third)
      | inr no_intel ↦ absurd (none_left c.vendor (c ∷ cs) (has_own c cs) no_nvidia no_amd no_intel)
    ]
  ]
]

-- `x` has the property, and no more load than any element.
abbrev pub IsLeast :
    (DecodeVendor × ℕ → Type 0) → List (DecodeVendor × ℕ) → DecodeVendor × ℕ → Type 0
IsLeast P xs x = P x × All (λ (y : DecodeVendor × ℕ). x.1 ≤ y.1) xs

All_le :
    (a b : ℕ) (xs : List (DecodeVendor × ℕ))
    → a ≤ b
    → All (λ (y : DecodeVendor × ℕ). b ≤ y.1) xs
    → All (λ (y : DecodeVendor × ℕ). a ≤ y.1) xs
All_le a b [] le h = tt
All_le a b (y ∷ ys) le h = (omega (arith, h.0), All_le a b ys le h.1)

IsLeastOption :
    (DecodeVendor × ℕ → Type 0) → List (DecodeVendor × ℕ) → Option (DecodeVendor × ℕ) → Type 0
IsLeastOption P xs none = xs ≡ []
IsLeastOption P xs (some x) = IsLeast P xs x

least_of_lem :
    (P : DecodeVendor × ℕ → Type 0) (y : DecodeVendor × ℕ) (ys : List (DecodeVendor × ℕ))
    (o : Option (DecodeVendor × ℕ))
    → P y
    → IsLeastOption P ys o
    → IsLeastOption P (y ∷ ys) (least_of y o)
unfolding IsLeastOption
least_of_lem P y ys none py h = (
  py,
  (
    omega arith,
    subst (λ (zs : List (DecodeVendor × ℕ)). All (λ (z : DecodeVendor × ℕ). y.1 ≤ z.1) zs) (sym h)
        tt,
  ),
)
least_of_lem P y ys (some z) py h = elim (Bool-cases (leb (y.1) (z.1))) [
  | inl less ↦ rw (less, IsLeastOption) (py, (omega arith, All_le _ _ ys (leb→le _ _ less) h.1))
  | inr more ↦ rw (more, IsLeastOption) (h.0, (ground arith, h.1))
]

-- The least load, and an element of the list has it.
min_by_load_lem :
    (P : DecodeVendor × ℕ → Type 0) (xs : List (DecodeVendor × ℕ))
    → All P xs
    → IsLeastOption P xs (min_by_load xs)
unfolding IsLeastOption
min_by_load_lem P [] h = refl
min_by_load_lem P (y ∷ ys) h = least_of_lem P y ys (min_by_load ys) h.0 (min_by_load_lem P ys h.1)

-- What with_load lists: supported vendors with their loads.
IsLoaded : (DecodeVendor → Option ℕ) → List VendorCapability → DecodeVendor × ℕ → Type 0
IsLoaded load cs (v, l) = (has_vendor v cs ≡ true) × (load v ≡ some l)

with_load-All :
    (load : DecodeVendor → Option ℕ) (cs : List VendorCapability) (vs : List DecodeVendor)
    → All (IsLoaded load cs) (with_load load cs vs)
unfolding IsLoaded
with_load-All load cs [] = tt
with_load-All load cs (v ∷ vs) = elim (Option-cases (load v)) [
  | inl silent ↦ rw (silent, with_load) (with_load-All load cs vs)
  | inr (l, loaded) ↦ elim (Bool-cases (has_vendor v cs)) [
    | inl there ↦ rw (loaded, with_load, there) ((there, loaded), with_load-All load cs vs)
    | inr missing ↦ rw (loaded, with_load, missing) (with_load-All load cs vs)
  ]
]

vendor_eq : (v w : DecodeVendor) → vendor_beq v w ≡ true → v ≡ w
vendor_eq nvidia nvidia h = refl
vendor_eq amd amd h = refl
vendor_eq intel intel h = refl
vendor_eq nvidia amd h = absurd cc
vendor_eq nvidia intel h = absurd cc
vendor_eq amd nvidia h = absurd cc
vendor_eq amd intel h = absurd cc
vendor_eq intel nvidia h = absurd cc
vendor_eq intel amd h = absurd cc

with_load-tail :
    (load : DecodeVendor → Option ℕ) (cs : List VendorCapability) (vs : List DecodeVendor)
    (P : DecodeVendor × ℕ → Type 0) (v : DecodeVendor)
    → All P (with_load load cs (v ∷ vs))
    → All P (with_load load cs vs)
with_load-tail load cs vs P v h = elim (Option-cases (load v)) [
  | inl silent ↦ rw (with_load, silent) at h
  | inr (l, loaded) ↦ elim (Bool-cases (has_vendor v cs)) [
    | inl there ↦
        (let both : All P ((v, l) ∷ with_load load cs vs) = rw (with_load, loaded, there) at h in
          both.1)
    | inr missing ↦ rw (with_load, loaded, missing) at h
  ]
]

listed_head :
    (load : DecodeVendor → Option ℕ) (cs : List VendorCapability) (vs : List DecodeVendor)
    (P : DecodeVendor × ℕ → Type 0) (l : ℕ) (v : DecodeVendor) {w : DecodeVendor}
    → w ≡ v
    → has_vendor w cs ≡ true
    → load w ≡ some l
    → All P (with_load load cs (v ∷ vs))
    → P (w, l)
listed_head load cs vs P l v {w} same there loaded h =
    let h' : All P (with_load load cs (w ∷ vs)) =
      subst (λ (u : DecodeVendor). All P (with_load load cs (u ∷ vs))) (sym same) h in
    let both : All P ((w, l) ∷ with_load load cs vs) = rw (with_load, loaded, there) at h' in both.0

-- And each of them is listed: what holds of the list holds of it.
with_load-complete :
    (load : DecodeVendor → Option ℕ) (cs : List VendorCapability) (vs : List DecodeVendor)
    (P : DecodeVendor × ℕ → Type 0) (w : DecodeVendor) (l : ℕ)
    → any (λ v. vendor_beq v w) vs ≡ true
    → has_vendor w cs ≡ true
    → load w ≡ some l
    → All P (with_load load cs vs)
    → P (w, l)
with_load-complete load cs [] P w l listed there loaded h = absurd cc
with_load-complete load cs (v ∷ vs) P w l listed there loaded h =
    elim (Bool-cases (vendor_beq v w)) [
      | inl same ↦ listed_head load cs vs P l v (sym (vendor_eq v w same)) there loaded h
      | inr other ↦
          with_load-complete load cs vs P w l (rw (any, other) at listed) there loaded
            (with_load-tail load cs vs P v h)
    ]

order_lem : (w : DecodeVendor) → any (λ v. vendor_beq v w) vendor_order ≡ true
order_lem nvidia = refl
order_lem amd = refl
order_lem intel = refl

idle_cases :
    (load : DecodeVendor → Option ℕ) (cs : List VendorCapability) (o : Option (DecodeVendor × ℕ))
    → IsLeastOption (IsLoaded load cs) (with_load load cs vendor_order) o
    → (v : DecodeVendor) → (o >>= λ (x : DecodeVendor × ℕ). some x.0) ≡ some v
    → (l : ℕ) × (has_vendor v cs ≡ true)
      × (load v ≡ some l)
      × ((w : DecodeVendor) (m : ℕ) → has_vendor w cs ≡ true → load w ≡ some m → l ≤ m)
unfolding IsLeastOption IsLoaded
idle_cases load cs none h v found = absurd cc
idle_cases load cs (some (u, l)) h v found =
    let same : u ≡ v = cc in
    subst
      (λ (z : DecodeVendor).
        (l' : ℕ) × (has_vendor z cs ≡ true)
        × (load z ≡ some l')
        × ((w : DecodeVendor) (m : ℕ) → has_vendor w cs ≡ true → load w ≡ some m → l' ≤ m))
      same
      (
        l,
        h.0.0,
        h.0.1,
        λ w m there loaded.
            with_load-complete load cs vendor_order (λ (x : DecodeVendor × ℕ). l ≤ x.1) w m
              (order_lem w) there loaded h.1,
      )

-- The strategy for idle devices takes a supported vendor, one whose reported load is the least of
-- those that the supported vendors report.
pub pick_idle_resource_vendor_least :
    (load : DecodeVendor → Option ℕ) (cs : List VendorCapability) (v : DecodeVendor)
    → pick_idle_resource_vendor load cs ≡ some v
    → (l : ℕ) × (has_vendor v cs ≡ true)
      × (load v ≡ some l)
      × ((w : DecodeVendor) (m : ℕ) → has_vendor w cs ≡ true → load w ≡ some m → l ≤ m)
unfolding pick_idle_resource_vendor
pick_idle_resource_vendor_least load cs v found =
    idle_cases load cs (min_by_load (with_load load cs vendor_order))
      (min_by_load_lem (IsLoaded load cs) (with_load load cs vendor_order)
        (with_load-All load cs vendor_order))
      v found

pick_vendor-IsPicked :
    (load : DecodeVendor → Option ℕ) (s : DeviceStrategy) (c : VendorCapability)
    (cs : List VendorCapability)
    → IsPicked (c ∷ cs) (pick_vendor load s (c ∷ cs))
pick_vendor-IsPicked load performance c cs = performance-IsPicked c cs
pick_vendor-IsPicked load idle_resource c cs =
    elim (Option-cases (pick_idle_resource_vendor load (c ∷ cs))) [
      | inl idle ↦ rw (idle, or_else) (performance-IsPicked c cs)
      | inr (v, found) ↦ (v, rw found, (pick_idle_resource_vendor_least load (c ∷ cs) v found).1)
    ]

resolve_lem :
    (load : DecodeVendor → Option ℕ) (node : DecodeVendor → Option Text) (s : DeviceStrategy)
    (cs : List VendorCapability)
    → is_empty cs ≡ false
    → (v : DecodeVendor) × ((pick_vendor load s cs >>= λ u. some (request_for node u))
        ≡ some (request_for node v))
      × (has_vendor v cs ≡ true)
resolve_lem load node s [] h = absurd cc
resolve_lem load node s (c ∷ cs) h =
    let (v, found, there) = pick_vendor-IsPicked load s c cs in (v, rw found, there)

-- Hardware decoding that is enabled, with a device that is supported, is always tried, under both
-- strategies, and on a vendor that came back as supported.
pub resolve_hw_decode_request_supported :
    (load : DecodeVendor → Option ℕ) (node : DecodeVendor → Option Text)
    (caps : HwDecodeCapabilities) (hw : HwDecodeFlags)
    → hw.hw_decode_enabled ≡ true
    → caps.supported ≡ true
    → is_empty (supported_vendors caps) ≡ false
    → (v : DecodeVendor) × (resolve_hw_decode_request load node caps hw ≡ some (request_for node v))
      × (has_vendor v (supported_vendors caps) ≡ true)
unfolding resolve_hw_decode_request
resolve_hw_decode_request_supported load node caps hw enabled supported some_vendor =
    let (v, found, there) =
      resolve_lem load node hw.device_strategy (supported_vendors caps) some_vendor in
    (v, rw (enabled, supported, some_vendor) found, there)
