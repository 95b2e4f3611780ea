-- ===== src/Drivers/Tests.antt =====
-- A device that two drivers match, of which the first refuses it.
use nonameos.Prelude.{ℕ, zero, suc, ◌≡◌, refl, replicate}
use nonameos.Prelude.Find.{find_index}
use nonameos.Drivers.{
  Device, Driver, Registry, boot, empty_device, empty_driver, dummy_probe, wildcard, device_at,
  register_device, register_driver,
}
use nonameos.Drivers.Binding.{IsPolite}
use nonameos.Drivers.Registration.{entered, Registers, register_device-Registers}

abbrev with_probe : (Device → ℕ × Device) → Driver
with_probe probe = record empty_driver {
  match_vendor = wildcard;
  match_device = wildcard;
  probe = probe;
}

abbrev two_drivers : Registry
two_drivers =
    (register_driver (with_probe (λ dev. (0, dev)))
      (register_driver (with_probe dummy_probe) boot).1).1

second_takes : (device_at (register_device empty_device two_drivers).1 0).driver_index ≡ 1
unfolding boot register_driver register_device empty_device empty_driver find_index
second_takes = refl

no_drivers : (n : ℕ) (dev : Device) → IsPolite dev (replicate n empty_driver)
unfolding empty_driver
no_drivers zero dev = tt
no_drivers (suc n) dev = (λ h. refl, no_drivers n dev)

polite : IsPolite (entered empty_device two_drivers) two_drivers.drivers
unfolding boot register_driver empty_driver find_index
polite = (λ h. refl, (λ h. refl, no_drivers 30 (entered empty_device two_drivers)))

register_device-Registers_example :
    Registers empty_device two_drivers (register_device empty_device two_drivers)
register_device-Registers_example = register_device-Registers empty_device two_drivers polite
