-- ===== src/Disk/Writer.antt =====
-- `BlockDeviceWriter` of helper/helper_app/disk/writer.py: the device is the byte at each position. How many
-- bytes `os.pwrite` accepts of what it is given is a parameter; 0 stands for its failure as well.
pub mod Laws
use vmware_migration_helper.Base.{
  ℕ, zero, suc, ◌+◌, ◌-◌, Bool, true, false, ◌&&◌, Option, none, some, List, [], ◌∷◌, ◌==◌, ltb,
  if◌then◌else◌, length, take, drop, or_default,
}
use vmware_migration_helper.Base.Bytes.{Bytes}

abbrev pub Device : Type 0
Device = ℕ → ℕ

-- `short_write` is the `OSError` of the loop, `too_small` the `ValueError` of the constructor; `out_of_fuel`
-- is a loop that does not end.
pub data Error : Type 0 where
  short_write too_small out_of_fuel : Error

pub data Written : Type 0 where
  done : Device → Written
  failed : Error → Written

-- The bytes at an offset and after it.
pub put_bytes : ℕ → Bytes → Device → Device
put_bytes offset [] dev = dev
put_bytes offset (b ∷ bytes) dev =
    put_bytes (offset + 1) bytes (λ x. if x == offset then b else dev x)

write_loop : ℕ → (ℕ → Bytes → ℕ) → ℕ → Bytes → Device → Written
write_loop fuel pwrite offset [] dev = done dev
write_loop zero pwrite offset (b ∷ view) dev = failed out_of_fuel
write_loop (suc fuel) pwrite offset (b ∷ view) dev = elim (pwrite offset (b ∷ view) == 0) [
  | true ↦ failed short_write
  | false ↦
      let n = pwrite offset (b ∷ view) in
      write_loop fuel pwrite (offset + n) (drop n (b ∷ view))
        (put_bytes offset (take n (b ∷ view)) dev)
]

-- `write_at`; every round writes a byte at least.
unfoldable pub write_at : (ℕ → Bytes → ℕ) → ℕ → Bytes → Device → Written
unfolding write_loop
write_at pwrite offset bytes dev = write_loop (length bytes) pwrite offset bytes dev
