-- ===== src/Filter/Devices.antt =====
-- updateDevices of proxy/proxy.js: the devices of a network scan merged into those known.
use block_proxy.Common.{List, [], ◌∷◌, ◌++◌, Option, none, some, if◌then◌else◌, text_eq}
use block_proxy.Wire.Buffer.{Text}

-- An address and a MAC address, with whatever else the scan says left out.
abbrev pub Devices : Type 0
Devices = List (Text × Text)

-- `oldDeviceMap[ip]`: of devices with the same address the last.
unfoldable pub old_device : Devices → Text → Option Text
old_device [] ip = none
old_device ((i, mac) ∷ devices) ip = elim (old_device devices ip) [
  | some later ↦ some later
  | none ↦ if text_eq i ip then some mac else none
]

-- The first device with the address is replaced.
unfoldable pub replace_device : Devices → Text → Text → Devices
replace_device [] ip mac = []
replace_device ((i, m) ∷ devices) ip mac =
    let rest = replace_device devices ip mac in
    if text_eq i ip then (ip, mac) ∷ devices else (i, m) ∷ rest

-- A new device against what was known of its address before the merge.
unfoldable pub merge_device : Devices → Text → Text → Option Text → Devices
merge_device merged ip mac none = merged ++ ((ip, mac) ∷ [])
merge_device merged ip mac (some known) =
    if text_eq known mac then merged else replace_device merged ip mac

unfoldable pub merge_from : Devices → Devices → Devices → Devices
merge_from old merged [] = merged
merge_from old merged ((ip, mac) ∷ found) =
    merge_from old (merge_device merged ip mac (old_device old ip)) found

unfoldable pub update_devices : Devices → Devices → Devices
update_devices old found = merge_from old old found
