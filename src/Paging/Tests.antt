-- ===== src/Paging/Tests.antt =====
-- A page in empty page tables.
use umbongo.Base.{
  ℕ, ◌+◌, ◌/◌, ◌%◌, ◌^◌, ◌<◌, ◌≡◌, refl, ◌==◌, some, true, false, if◌then◌else◌, arith,
}
use umbongo.Base.Panic.{◌>>=◌}
use umbongo.Paging.{PageFlags, Pml4, new_level, map_4KiB, unmap_4KiB}
use umbongo.Paging.Entries.{new_level-LevelValid}
use umbongo.Paging.Translate.{IsPml4, PointersValid, translate, map_4KiB_lem}
use umbongo.Paging.RoundTrip.{unmap_4KiB-map_4KiB}

abbrev flags : PageFlags
flags = record {
  writable = true;
  user = true;
  cache_disable = false;
  large = false;
  global = false;
  no_execute = true;
}

abbrev empty_tables : Pml4
empty_tables = new_level

map_4KiB_lem_example :
    (pml4' : Pml4) × ((map_4KiB 4198400 8192 flags empty_tables ≡ some pml4')
      × (IsPml4 pml4'
          × ((v : ℕ)
              → v < 2 ^ 48
              → translate v pml4' ≡ (
                  if 4198400 / 2 ^ 12 == v / 2 ^ 12
                  then some (8192 + v % 2 ^ 12, flags)
                  else translate v empty_tables))))
map_4KiB_lem_example =
    map_4KiB_lem 4198400 8192 flags empty_tables refl refl (omega arith) (omega arith)
      (new_level-LevelValid PointersValid) refl

unmap_4KiB-map_4KiB_example :
    (map_4KiB 4198400 8192 flags empty_tables >>= unmap_4KiB 4198400) ≡ some empty_tables
unmap_4KiB-map_4KiB_example =
    unmap_4KiB-map_4KiB 4198400 8192 flags empty_tables refl refl (omega arith) (omega arith)
      (new_level-LevelValid PointersValid) refl
