-- ===== src/Net/Device.antt =====
-- What the driver calls of 27/dev.c on a device: the counters of promiscuous and all-multicast
-- reception, the master, opening and closing.
use hoolock.Common.{
  ℕ, ◌+◌, ◌-◌, ◌%◌, ◌^◌, Bool, true, false, ◌&&◌, Option, is_some, if◌then◌else◌, ◌==◌,
}
use hoolock.Bond.State.{NetDevice, Status, ok, eoverflow, ebusy, enodev}

-- The increments that the callers pass: 1 and -1.
pub data Inc : Type 0 where
  plus minus : Inc

-- `unsigned int` addition of an increment.
abbrev pub add_inc : ℕ → Inc → ℕ
add_inc n plus = (n + 1) % 2 ^ 32
add_inc n minus = (n + (2 ^ 32 - 1)) % 2 ^ 32

-- `__dev_set_promiscuity`.
unfoldable pub dev_set_promiscuity : NetDevice → Inc → Status × NetDevice
dev_set_promiscuity d inc =
    let n = add_inc d.promiscuity inc in
    if n == 0
    then (elim inc [
      | minus ↦ (ok, record d { iff_promisc = false; promiscuity = n })
      | plus ↦ (eoverflow, record d { iff_promisc = true })
    ])
    else (ok, record d { iff_promisc = true; promiscuity = n })

-- `dev_set_allmulti`.
unfoldable pub dev_set_allmulti : NetDevice → Inc → Status × NetDevice
dev_set_allmulti d inc =
    let n = add_inc d.allmulti inc in
    if n == 0
    then (elim inc [
      | minus ↦ (ok, record d { iff_allmulti = false; allmulti = n })
      | plus ↦ (eoverflow, record d { iff_allmulti = true })
    ])
    else (ok, record d { iff_allmulti = true; allmulti = n })

-- `netdev_set_master`.
unfoldable pub netdev_set_master : NetDevice → Option ℕ → Status × NetDevice
netdev_set_master d m =
    if is_some m && is_some d.master
    then (ebusy, d)
    else (ok, record d { master = m; iff_slave = is_some m })

-- A device's own driver: whether the device is there, the test of its address, and its entries
-- `open` and `stop`, with the carrier that they leave.
pub record DeviceDriver : Type 0 where
  pub present : NetDevice → Bool
  pub validate_addr : NetDevice → Status
  pub open_device : NetDevice → Status × Bool
  pub stop_device : NetDevice → Bool

-- `dev_open`; `running` is __LINK_STATE_START.
abbrev pub opened : NetDevice → Status × Bool → Status × NetDevice
opened d (ok, c) = (ok, record d { running = true; iff_up = true; carrier = c })
opened d (st, c) = (st, record d { running = false; carrier = c })

abbrev pub validated : DeviceDriver → NetDevice → Status → Status × NetDevice
validated v d ok = opened d (v.open_device (record d { running = true }))
validated v d st = (st, record d { running = false })

unfoldable pub dev_open : DeviceDriver → NetDevice → Status × NetDevice
dev_open v d =
    if d.iff_up
    then (ok, d)
    else if v.present d
    then validated v d (v.validate_addr (record d { running = true }))
    else (enodev, d)

-- `dev_close`.
unfoldable pub dev_close : DeviceDriver → NetDevice → NetDevice
dev_close v d =
    let d₁ = record d { running = false } in
    if d.iff_up then record d₁ { iff_up = false; carrier = v.stop_device d₁ } else d
