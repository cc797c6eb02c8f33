-- ===== src/System/Snapshot.antt =====
-- The ioctls of fpga-char/chardev.c:279-320 as they arrive at the device.
use linux_pcie_dma.Common.{
  ℕ, ◌+◌, ◌/◌, ◌^◌, ◌<◌, ◌≡◌, refl, ◌∙◌, true, none, some, [], ◌∷◌, ◌++◌, arith, u32, bit_or,
  bit_or-shl32, shl32,
}
use mathlib.Core.List.{append-nil}
use linux_pcie_dma.Registers.{num_possible_virtines}
use linux_pcie_dma.Device.{VirtineFpgaDevice}
use linux_pcie_dma.Device.Effects.{cond_signal}
use linux_pcie_dma.Device.Mmio.{virtine_fpga_mmio_read, virtine_fpga_mmio_write}
use linux_pcie_dma.Driver.{returns, fails, enotty}
use linux_pcie_dma.Driver.Chardev.{
  fpga_char_ioctl, fpga_char_modify_batch_factor, fpga_char_get_max_num_virtines,
  fpga_char_ring_doorbell, fpga_char_set_snapshot, unknown,
}
use linux_pcie_dma.System.{System, device_bus}

-- copy_from_user as it works on mapped memory: at a user address lies an `unsigned long`, and both
-- of its halves are copied whole.
pub record Holds64 (copy_from_user : ℕ → ℕ × ℕ) (address value : ℕ) : Type 0 where
  pub word : value < 2 ^ 64
  pub low : copy_from_user (address + 0) ≡ (0, u32 value)
  pub high : copy_from_user (address + 4) ≡ (0, value / 2 ^ 32)

-- The halves of a 64-bit value, cut to 32 bits once more on the bus, join to the value.
pub joined_halves :
    (value : ℕ) → value < 2 ^ 64 → bit_or (shl32 (u32 (value / 2 ^ 32))) (u32 (u32 value)) ≡ value
joined_halves value h =
    bit_or-shl32 (u32 (value / 2 ^ 32)) (u32 (u32 value)) (omega arith) (omega arith) ∙ omega arith

pub low_word : (value : ℕ) → u32 (u32 value) ≡ u32 value
low_word value = omega arith

module _ (copy_from_user : ℕ → ℕ × ℕ) (s : System) where
  abbrev fpga : VirtineFpgaDevice
  fpga = s.device.fpga

  -- SET_SNAPSHOT reports the eight bytes of the address as written, and the device then holds that
  -- address in full. Of the size it holds only the lower 32 bits: the upper half goes to an offset
  -- where the device decodes no register.
  pub set_snapshot_lem :
      (args addr size : ℕ)
      → Holds64 copy_from_user args addr
      → Holds64 copy_from_user (args + 8) size
      → fpga_char_ioctl device_bus copy_from_user s fpga_char_set_snapshot args
        ≡ some (
          returns 8,
          none,
          record s {
            device = record s.device {
              fpga = record s.device.fpga { snapshot_addr = addr; snapshot_size = u32 size };
            };
          },
        )
  unfolding fpga_char_ioctl device_bus virtine_fpga_mmio_write
  set_snapshot_lem args addr size at_addr at_size =
      rw (at_size.low, at_addr.low, at_addr.high)
        (simp (append-nil, joined_halves addr at_addr.word, low_word size))

  pub ring_doorbell_lem :
      (args : ℕ)
      → fpga_char_ioctl device_bus copy_from_user s fpga_char_ring_doorbell args
        ≡ some (
          returns 0,
          none,
          record s {
            device = record s.device { fpga = record s.device.fpga { doorbell = true } };
            asked = s.asked ++ (cond_signal ∷ []);
          },
        )
  unfolding fpga_char_ioctl device_bus virtine_fpga_mmio_write
  ring_doorbell_lem args = refl

  -- Each of the other requests reports 0 and reaches its one register. MODIFY_BATCH_FACTOR stores the
  -- lower 32 bits of its argument; RING_DOORBELL rings the doorbell and signals the clean-up thread;
  -- GET_MAX_NUM_VIRTINES fetches the size of the queues and changes nothing. An unknown request
  -- reports ENOTTY and changes nothing.
  fpga_char_ioctl_lem :
      (args : ℕ)
      → (fpga_char_ioctl device_bus copy_from_user s fpga_char_modify_batch_factor args
          ≡ some (
            returns 0,
            none,
            record s {
              device = record s.device { fpga = record s.device.fpga { batch_factor = u32 args } };
            },
          ))
        × (fpga_char_ioctl device_bus copy_from_user s fpga_char_ring_doorbell args
            ≡ some (
              returns 0,
              none,
              record s {
                device = record s.device { fpga = record s.device.fpga { doorbell = true } };
                asked = s.asked ++ (cond_signal ∷ []);
              },
            ))
        × (fpga_char_ioctl device_bus copy_from_user s fpga_char_get_max_num_virtines args
            ≡ some (returns 0, some num_possible_virtines, s))
        × (fpga_char_ioctl device_bus copy_from_user s unknown args ≡ some (fails enotty, none, s))
  unfolding fpga_char_ioctl device_bus virtine_fpga_mmio_write virtine_fpga_mmio_read
  fpga_char_ioctl_lem args = (simp (append-nil, low_word args), refl, refl, refl)
