-- ===== src/Drivers.antt =====
-- kernel/src/drivers/mod.rs: the tables of devices and drivers, and how they are matched. A driver's
-- probe is a function on the device; it returns its `i32` result by the bit pattern.
pub mod Binding
pub mod Registration
mod Tests
use nonameos.Prelude.{
  ℕ, zero, suc, ◌+◌, ◌%◌, min, Bool, true, false, not, ◌&&◌, ◌||◌, List, [], ◌∷◌, map, Option, none,
  some, length, get_or, set, take, replicate, copy_prefix, ltb, leb, ◌==◌, if◌then◌else◌,
}
use nonameos.Prelude.Find.{find_index}
use nonameos.Prelude.Counting.{count_if}
use nonameos.Objects.Store.{u32_mod}

pub data DeviceClass : Type 0 where
  unknown display network storage input audio usb_controller serial platform_device : DeviceClass

pub data BusType : Type 0 where
  platform pci usb virtio : BusType

abbrev pub bus_code : BusType → ℕ
bus_code platform = 0
bus_code pci = 1
bus_code usb = 2
bus_code virtio = 3

-- The `i32` -1.
abbrev pub minus_one : ℕ
minus_one = 0xFFFFFFFF

pub record Device : Type 0 where
  pub id : ℕ
  pub name : List ℕ
  pub name_len : ℕ
  pub class : DeviceClass
  pub bus : BusType
  pub vendor_id : ℕ
  pub device_id : ℕ
  pub driver_index : ℕ
  pub active : Bool
  pub mmio_base : ℕ
  pub mmio_size : ℕ
  pub irq : ℕ

unfoldable pub empty_device : Device
empty_device = record {
  id = 0;
  name = replicate 32 0;
  name_len = 0;
  class = unknown;
  bus = platform;
  vendor_id = 0;
  device_id = 0;
  driver_index = minus_one;
  active = false;
  mmio_base = 0;
  mmio_size = 0;
  irq = 0;
}

-- At most 31 bytes, and a zero behind them.
abbrev pub write_name : List ℕ → List ℕ → List ℕ
write_name s name = set (copy_prefix (take (min (length s) 31) s) name) (min (length s) 31) 0

pub set_device_name : List ℕ → Device → Device
set_device_name s dev = record dev { name = write_name s dev.name; name_len = min (length s) 31 }

pub record Driver : Type 0 where
  pub name : List ℕ
  pub name_len : ℕ
  pub bus : BusType
  pub match_vendor : ℕ
  pub match_device : ℕ
  pub probe : Device → ℕ × Device
  pub remove : Device → Device
  pub active : Bool

abbrev pub dummy_probe : Device → ℕ × Device
dummy_probe dev = (minus_one, dev)

abbrev pub dummy_remove : Device → Device
dummy_remove dev = dev

unfoldable pub empty_driver : Driver
empty_driver = record {
  name = replicate 32 0;
  name_len = 0;
  bus = platform;
  match_vendor = 0;
  match_device = 0;
  probe = dummy_probe;
  remove = dummy_remove;
  active = false;
}

pub set_driver_name : List ℕ → Driver → Driver
set_driver_name s drv = record drv { name = write_name s drv.name; name_len = min (length s) 31 }

-- Matches every number.
abbrev pub wildcard : ℕ
wildcard = 0xFFFF

unfoldable pub matches : Driver → Device → Bool
matches drv dev =
    if not (bus_code drv.bus == bus_code dev.bus)
    then false
    else if not (drv.match_vendor == wildcard) && not (drv.match_vendor == dev.vendor_id)
    then false
    else if not (drv.match_device == wildcard) && not (drv.match_device == dev.device_id)
    then false
    else true

abbrev pub max_devices : ℕ
max_devices = 64

abbrev pub max_drivers : ℕ
max_drivers = 32

-- DEVICES, DRIVERS and NEXT_DEVICE_ID.
pub record Registry : Type 0 where
  pub devices : List Device
  pub drivers : List Driver
  pub next_device_id : ℕ

unfoldable pub boot : Registry
unfolding empty_device empty_driver
boot = record {
  devices = replicate max_devices empty_device;
  drivers = replicate max_drivers empty_driver;
  next_device_id = 1;
}

unfoldable pub alloc_device_id : Registry → ℕ × Registry
alloc_device_id g =
    (g.next_device_id, record g { next_device_id = (g.next_device_id + 1) % u32_mod })

abbrev pub bound_to : ℕ → Device → Device
bound_to i dev = record dev { driver_index = i }

-- The probe of the driver `i`, and whether the device is its.
unfoldable pub try_probe : Driver → ℕ → Device → Bool × Device
try_probe drv i dev =
    let (rc, dev') = drv.probe dev in if rc == 0 then (true, bound_to i dev') else (false, dev')

-- `try_bind_driver`, from the driver `i` on.
unfoldable pub bind_from : List Driver → ℕ → Device → Device
unfolding try_probe matches
bind_from [] i dev = dev
bind_from (drv ∷ drivers) i dev =
    let (bound, dev') = try_probe drv i dev in
    elim (drv.active && matches drv dev) [
      | true ↦ elim bound [ true ↦ dev' | false ↦ bind_from drivers (i + 1) dev' ]
      | false ↦ bind_from drivers (i + 1) dev
    ]

abbrev pub device_at : Registry → ℕ → Device
device_at g i = get_or g.devices i empty_device

abbrev pub is_free_device : Device → Bool
is_free_device dev = not dev.active

abbrev pub is_free_driver : Driver → Bool
is_free_driver drv = not drv.active

unfoldable pub register_device : Device → Registry → Option ℕ × Registry
unfolding alloc_device_id bind_from
register_device dev g =
    let (id, g') = alloc_device_id g in
    let dev' : Device = record dev { id = id; active = true } in
    elim (find_index is_free_device g'.devices) [
      | none ↦ (none, g')
      | some i ↦ (some i, record g' { devices = set g'.devices i (bind_from g'.drivers 0 dev') })
    ]

-- `DEVICES[d].driver_index < 0`
abbrev pub is_unbound : Device → Bool
is_unbound dev = leb 0x80000000 dev.driver_index

-- The new driver `i` is offered every device that has none.
unfoldable pub offer : Driver → ℕ → Device → Device
unfolding try_probe matches
offer drv i dev =
    if dev.active && is_unbound dev && matches drv dev then (try_probe drv i dev).1 else dev

unfoldable pub register_driver : Driver → Registry → Option ℕ × Registry
unfolding offer
register_driver drv g = elim (find_index is_free_driver g.drivers) [
  | none ↦ (none, g)
  | some i ↦
      let drv' : Driver = record drv { active = true } in
      (some i, record g { drivers = set g.drivers i drv'; devices = map (offer drv' i) g.devices })
]

abbrev pub get_device : ℕ → Registry → Option Device
get_device idx g =
    if ltb idx max_devices && (device_at g idx).active then some (device_at g idx) else none

abbrev pub is_active_device : Device → Bool
is_active_device dev = dev.active

abbrev pub is_active_driver : Driver → Bool
is_active_driver drv = drv.active

abbrev pub device_count : Registry → ℕ
device_count g = count_if is_active_device g.devices

abbrev pub driver_count : Registry → ℕ
driver_count g = count_if is_active_driver g.drivers
