-- ===== src/Memory/Release/Twice.antt =====
-- A block that mydeallocate has freed is refused from then on.
use simple_os_dev_projs.Base.{◌≡◌, ◌≢◌, ◌⊎◌}
use simple_os_dev_projs.Memory.Region.{Addr, Mem, magic}

-- The node at `a` has no signature, or is not in use.
abbrev Dead : Addr → Mem → Type 0
Dead a m = ((m a).signature ≢ magic) ⊎ ((m a).in_use ≡ 0)
