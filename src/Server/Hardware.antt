-- ===== src/Server/Hardware.antt =====
-- The choice of the decoding device: resolve_hw_decode_request and its helpers in server.rs.
pub mod Choice
use jellyfin_recents.Prelude.{
  ℕ, suc, ◌≤◌, ◌<◌, ◌≡◌, ◌↔◌, ◌⊎◌, refl, sym, ◌∙◌, Bool, true, false, not, ◌&&◌, ◌||◌, Option, none,
  some, List, [], ◌∷◌, arith, ltb, leb, if◌then◌else◌, keep, any, All, Bool-cases, Option-cases,
  inl, inr, leb→le,
}
use jellyfin_recents.Prelude.Options.{◌>>=◌}
use jellyfin_recents.Wire.Bytes.{Text}
use jellyfin_recents.Wire.Requests.Types.{DeviceStrategy, performance, idle_resource, HwDecodeFlags}
use jellyfin_recents.Wire.Responses.Send.{
  DecodeVendor, nvidia, amd, intel, VendorCapability, HwDecodeCapabilities,
}

pub data HwVendor : Type 0 where
  vaapi cuda : HwVendor

pub record HwDecodeRequest : Type 0 where
  pub vendor : HwVendor
  pub device : Option Text

abbrev pub vendor_beq : DecodeVendor → DecodeVendor → Bool
vendor_beq nvidia nvidia = true
vendor_beq amd amd = true
vendor_beq intel intel = true
vendor_beq nvidia amd = false
vendor_beq nvidia intel = false
vendor_beq amd nvidia = false
vendor_beq amd intel = false
vendor_beq intel nvidia = false
vendor_beq intel amd = false

-- The order of preference: the discrete card first.
abbrev pub vendor_order : List DecodeVendor
vendor_order = nvidia ∷ amd ∷ intel ∷ []

unfoldable pub has_vendor : DecodeVendor → List VendorCapability → Bool
has_vendor v cs = any (λ (c : VendorCapability). vendor_beq c.vendor v) cs

abbrev pub find_vendor : List VendorCapability → List DecodeVendor → Option DecodeVendor
find_vendor cs [] = none
find_vendor cs (v ∷ vs) = if has_vendor v cs then some v else find_vendor cs vs

unfoldable pub pick_performance_vendor : List VendorCapability → Option DecodeVendor
pick_performance_vendor cs = find_vendor cs vendor_order

-- The vendors that are supported and report a load, with it.
abbrev pub with_load :
    (DecodeVendor → Option ℕ) → List VendorCapability → List DecodeVendor → List (DecodeVendor × ℕ)
with_load load cs [] = []
with_load load cs (v ∷ vs) =
    let rest = with_load load cs vs in
    elim (load v) [ some l ↦ if has_vendor v cs then (v, l) ∷ rest else rest | none ↦ rest ]

-- `min_by_key`, which keeps the first of equals.
abbrev pub least_of : DecodeVendor × ℕ → Option (DecodeVendor × ℕ) → Option (DecodeVendor × ℕ)
least_of x none = some x
least_of x (some y) = if leb (x.1) (y.1) then some x else some y

abbrev pub min_by_load : List (DecodeVendor × ℕ) → Option (DecodeVendor × ℕ)
min_by_load [] = none
min_by_load (x ∷ xs) = least_of x (min_by_load xs)

-- `load` is query_load_percent, which asks the driver.
unfoldable pub pick_idle_resource_vendor :
    (DecodeVendor → Option ℕ) → List VendorCapability → Option DecodeVendor
pick_idle_resource_vendor load cs = do (v, l) ← min_by_load (with_load load cs vendor_order); some v

abbrev pub or_else : Option DecodeVendor → Option DecodeVendor → Option DecodeVendor
or_else (some v) o = some v
or_else none o = o

abbrev pub pick_vendor :
    (DecodeVendor → Option ℕ) → DeviceStrategy → List VendorCapability → Option DecodeVendor
pick_vendor load performance cs = pick_performance_vendor cs
pick_vendor load idle_resource cs =
    or_else (pick_idle_resource_vendor load cs) (pick_performance_vendor cs)

abbrev pub decode_vendor_to_hw_vendor : DecodeVendor → HwVendor
decode_vendor_to_hw_vendor nvidia = cuda
decode_vendor_to_hw_vendor amd = vaapi
decode_vendor_to_hw_vendor intel = vaapi

abbrev pub device_of : (DecodeVendor → Option Text) → DecodeVendor → Option Text
device_of node nvidia = none
device_of node amd = node amd
device_of node intel = node intel

abbrev pub request_for : (DecodeVendor → Option Text) → DecodeVendor → HwDecodeRequest
request_for node v = record { vendor = decode_vendor_to_hw_vendor v; device = device_of node v }

abbrev pub supported_vendors : HwDecodeCapabilities → List VendorCapability
supported_vendors caps = keep (λ (c : VendorCapability). c.supported) caps.vendors

abbrev pub is_empty : List VendorCapability → Bool
is_empty [] = true
is_empty (c ∷ cs) = false

-- `node` is first_render_node_for.
unfoldable pub resolve_hw_decode_request :
    (DecodeVendor → Option ℕ)
    → (DecodeVendor → Option Text)
    → HwDecodeCapabilities
    → HwDecodeFlags
    → Option HwDecodeRequest
resolve_hw_decode_request load node caps hw =
    if not hw.hw_decode_enabled || not caps.supported
    then none
    else if is_empty (supported_vendors caps)
    then none
    else (pick_vendor load hw.device_strategy (supported_vendors caps) >>= λ v.
        some (request_for node v))
