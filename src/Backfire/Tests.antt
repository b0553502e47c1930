-- ===== src/Backfire/Tests.antt =====
-- A run of the backfire device.
use rt_tests.Base.{◌≡◌, refl, true, false, none, some, [], ◌∷◌, length}
use rt_tests.Base.Int.{pos}
use rt_tests.Backfire.{
  File, Device, booted, backfire_open, backfire_release, opened, released, here, next,
}
use rt_tests.Backfire.Exclusive.{exclusive_alone, exclusive_forever}

abbrev reader : File
reader = record { o_excl = false; writable = false }

abbrev exclusive : File
exclusive = record { o_excl = true; writable = true }

abbrev held : Device
held = record booted { open_cnt = pos 1; mode_write = true; mode_excl = true }

exclusive-opens : backfire_open exclusive booted ≡ some held
unfolding backfire_open
exclusive-opens = refl

exclusive_alone_example : (length (exclusive ∷ []) ≡ 1) × (held.open_cnt ≡ pos 1)
exclusive_alone_example =
    exclusive_alone {t = record { device = held; files = exclusive ∷ [] }} 0 exclusive
      (next here (opened exclusive held exclusive-opens)) refl refl

-- The exclusive file is released; a reader then is refused.
exclusive_forever_example : backfire_open reader (backfire_release exclusive held) ≡ none
exclusive_forever_example =
    exclusive_forever {t = record { device = backfire_release exclusive held; files = [] }}
      exclusive held here refl exclusive-opens (next here (released 0 exclusive refl)) reader
