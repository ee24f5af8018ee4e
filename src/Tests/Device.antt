-- ===== src/Tests/Device.antt =====
-- src/kern/device.c at concrete inputs: a second device of the same name.
use illinux.Prelude.{◌≡◌, refl, none, some, [], ◌∷◌, ◌==◌, if◌then◌else◌}
use illinux.Mem.{store}
use illinux.Str.{strcmp}
use illinux.Device.{Device, Devtab, device_register, device_open, find_free}
use illinux.Device.Lookup.{device_open-device_register}

abbrev first : Device
first = record { name = 98 ∷ 108 ∷ []; openfn = 100; aux = 1 }

abbrev second : Device
second = record { name = 98 ∷ 108 ∷ []; openfn = 100; aux = 2 }

abbrev devices : Devtab
devices i = if i == 0 then some first else none

registered : device_register second devices ≡ some (store devices 1 (some second), 1)
unfolding device_register find_free strcmp
registered = refl

device_open-device_register_example :
    device_open (98 ∷ 108 ∷ []) 1 (store devices 1 (some second)) ≡ some second
device_open-device_register_example =
    device_open-device_register devices (store devices 1 (some second)) second 1 registered
