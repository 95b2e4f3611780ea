-- ===== src/Drivers/Registration.antt =====
-- `register_device` and `register_driver` of kernel/src/drivers/mod.rs.
use nonameos.Prelude.{
  ℕ, ◌+◌, ◌%◌, ◌≡◌, ap, ◌∙◌, true, false, List, [], ◌∷◌, zero, suc, map, Option, none, some,
  get_elem?, set, Bool-cases, inl, inr, arith,
}
use nonameos.Prelude.Find.{find_index, find_index_cases, NonePasses, IsFirst}
use nonameos.Objects.Store.{u32_mod}
use nonameos.Drivers.{
  Device, Driver, Registry, is_free_device, is_free_driver, is_unbound, alloc_device_id,
  register_device, offer, register_driver,
}
use nonameos.Drivers.Binding.{accepts, IsPolite, bound_by, bind_from-first}

module _ (dev : Device) (g : Registry) where
  -- The device as it enters the table.
  abbrev pub entered : Device
  entered = record dev { id = g.next_device_id; active = true }

  abbrev numbered : Registry
  numbered = record g { next_device_id = (g.next_device_id + 1) % u32_mod }

  pub data Registers : Option ℕ × Registry → Type 0 where
    no_slot : NonePasses is_free_device g.devices → Registers (none, numbered)
    placed :
        (i : ℕ)
        → IsFirst is_free_device g.devices i
        → Registers (
          some i,
          record numbered {
            devices =
                set g.devices i
                  (bound_by entered 0 g.drivers (find_index (accepts entered) g.drivers));
          },
        )

  -- Where a probe that fails leaves the device as it is, `register_device` fails only when no slot
  -- is free, and then changes nothing but the next number. Otherwise the device goes into the first
  -- free slot, with its number, bound to the first driver that is active, matches it and whose
  -- probe succeeds, or to none if there is no such driver; no other device and no driver changes.
  pub register_device-Registers : IsPolite entered g.drivers → Registers (register_device dev g)
  unfolding register_device alloc_device_id
  register_device-Registers polite = elim (find_index_cases is_free_device g.devices) [
    | inl (e, none_free) ↦ rw (register_device, e) (no_slot none_free)
    | inr (i, e, first) ↦
        rw (register_device, e, bind_from-first entered 0 g.drivers polite) (placed i first)
  ]

get_elem?-offered :
    (f : Device → Device) (devices : List Device) (j : ℕ) (dev : Device)
    → get_elem? devices j ≡ some dev
    → get_elem? (map f devices) j ≡ some (f dev)
get_elem?-offered f [] j dev h = cc
get_elem?-offered f (d ∷ devices) zero dev h = ground arith
get_elem?-offered f (d ∷ devices) (suc j) dev h = get_elem?-offered f devices j dev h

offer-kept : (drv : Driver) (i : ℕ) (dev : Device) → is_unbound dev ≡ false → offer drv i dev ≡ dev
unfolding offer
offer-kept drv i dev bound = elim (Bool-cases dev.active) [
  | inl on ↦ rw (offer, on, bound)
  | inr off ↦ rw (offer, off)
]

-- A new driver takes no device from another: a device that has a driver stays as it is.
pub register_driver-kept :
    (drv : Driver) (g : Registry) (j : ℕ) (dev : Device)
    → get_elem? g.devices j ≡ some dev
    → is_unbound dev ≡ false
    → get_elem? (register_driver drv g).1.devices j ≡ some dev
unfolding register_driver
register_driver-kept drv g j dev there bound = elim (find_index_cases is_free_driver g.drivers) [
  | inl (e, none_free) ↦ rw (register_driver, e) there
  | inr (i, e, first) ↦
      rw (register_driver, e)
        (get_elem?-offered (offer (record drv { active = true }) i) g.devices j dev there
          ∙ ap some (offer-kept (record drv { active = true }) i dev bound))
]
