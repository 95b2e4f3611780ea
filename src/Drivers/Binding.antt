-- ===== src/Drivers/Binding.antt =====
-- Which driver a device is bound to in kernel/src/drivers/mod.rs.
use nonameos.Prelude.{
  ℕ, zero, suc, ◌+◌, ◌≡◌, refl, ap, sym, ◌∙◌, Bool, true, false, ◌&&◌, List, [], ◌∷◌, Option, none,
  some, ◌==◌, if◌then◌else◌, Bool-cases, inl, inr, arith,
}
use nonameos.Prelude.Find.{find_index, next_index}
use nonameos.Drivers.{Device, Driver, matches, bound_to, try_probe, bind_from}

-- The driver is there, matches the device, and its probe succeeds.
abbrev pub accepts : Device → Driver → Bool
accepts dev drv = drv.active && matches drv dev && ((drv.probe dev).0 == 0)

-- A probe that fails leaves the device as it is.
abbrev pub IsPolite : Device → List Driver → Type 0
IsPolite dev [] = Unit {0}
IsPolite dev (drv ∷ drivers) =
    (((drv.probe dev).0 == 0) ≡ false → (drv.probe dev).1 ≡ dev) × IsPolite dev drivers

-- What the driver at `i` of `drivers`, which has the number `base + i`, makes of the device.
abbrev pub bound_by : Device → ℕ → List Driver → Option ℕ → Device
bound_by dev base drivers none = dev
bound_by dev base [] (some i) = dev
bound_by dev base (drv ∷ drivers) (some zero) = bound_to base (drv.probe dev).1
bound_by dev base (drv ∷ drivers) (some (suc i)) = bound_by dev (base + 1) drivers (some i)

bound_by-next :
    (dev : Device) (base : ℕ) (drv : Driver) (drivers : List Driver) (o : Option ℕ)
    → bound_by dev base (drv ∷ drivers) (next_index o) ≡ bound_by dev (base + 1) drivers o
bound_by-next dev base drv drivers none = refl
bound_by-next dev base drv drivers (some i) = refl

-- One round of the loop.
module _ (dev : Device) (base : ℕ) (drv : Driver) (drivers : List Driver) where
  probed : ((drv.probe dev).0 == 0) ≡ false → try_probe drv base dev ≡ (false, (drv.probe dev).1)
  unfolding try_probe
  probed r = rw (try_probe, r)

  probed_well :
      ((drv.probe dev).0 == 0) ≡ true
      → try_probe drv base dev ≡ (true, bound_to base (drv.probe dev).1)
  unfolding try_probe
  probed_well r = rw (try_probe, r)

  bind_skips :
      (drv.active && matches drv dev) ≡ false
      → bind_from (drv ∷ drivers) base dev ≡ bind_from drivers (base + 1) dev
  unfolding bind_from
  bind_skips e = rw (bind_from, e)

  bind_fails :
      (drv.active && matches drv dev) ≡ true
      → ((drv.probe dev).0 == 0) ≡ false
      → bind_from (drv ∷ drivers) base dev ≡ bind_from drivers (base + 1) (drv.probe dev).1
  unfolding bind_from
  bind_fails e r =
      rw (bind_from, e, probed r)
        (ap (λ (q : Bool × Device). bind_from drivers (base + 1) q.1) (probed r))

  bind_takes :
      (drv.active && matches drv dev) ≡ true
      → ((drv.probe dev).0 == 0) ≡ true
      → bind_from (drv ∷ drivers) base dev ≡ bound_to base (drv.probe dev).1
  unfolding bind_from
  bind_takes e r =
      rw (bind_from, e, probed_well r) (ap (λ (q : Bool × Device). q.1) (probed_well r))

  refuses :
      (b : Bool)
      → accepts dev drv ≡ b
      → find_index (accepts dev) (drv ∷ drivers)
        ≡ (if b then some 0 else next_index (find_index (accepts dev) drivers))
  unfolding find_index
  refuses b e = rw e

pub bind_from-first :
    (dev : Device) (base : ℕ) (drivers : List Driver)
    → IsPolite dev drivers
    → bind_from drivers base dev ≡ bound_by dev base drivers (find_index (accepts dev) drivers)
unfolding bind_from
bind_from-first dev base [] h = unfold find_index in refl
bind_from-first dev base (drv ∷ drivers) (polite, rest) =
    elim (Bool-cases (drv.active && matches drv dev)) [
      | inr e ↦
          bind_skips dev base drv drivers e
          ∙ passed (bind_from-first dev (base + 1) drivers rest) (ground (arith, e))
      | inl e ↦ elim (Bool-cases ((drv.probe dev).0 == 0)) [
        | inr r ↦
            bind_fails dev base drv drivers e r
            ∙ ap (bind_from drivers (base + 1)) (polite r)
            ∙ passed (bind_from-first dev (base + 1) drivers rest) (ground (arith, e, r))
        | inl r ↦
            bind_takes dev base drv drivers e r
            ∙ sym (
                ap (bound_by dev base (drv ∷ drivers))
                  (refuses dev base drv drivers true (ground (arith, e, r))))
      ]
    ]
  where
    Bound : Type 0
    Bound =
        bind_from drivers (base + 1) dev
        ≡ bound_by dev (base + 1) drivers (find_index (accepts dev) drivers)

    passed :
        Bound
        → accepts dev drv ≡ false
        → bind_from drivers (base + 1) dev
          ≡ bound_by dev base (drv ∷ drivers) (find_index (accepts dev) (drv ∷ drivers))
    passed bound n =
        bound
        ∙ sym (bound_by-next dev base drv drivers (find_index (accepts dev) drivers))
        ∙ sym (ap (bound_by dev base (drv ∷ drivers)) (refuses dev base drv drivers false n))
