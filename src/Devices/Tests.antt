-- ===== src/Devices/Tests.antt =====
-- Runs of the two modules (module5/task2, module5/task4) on a short text.
use eltex_practice.Base.{
  ◌≡◌, refl, Bytes, List, [], ◌∷◌, Option, none, some, arith, true, codes, ◌-◌, ◌==◌, if◌then◌else◌,
  All,
}
use eltex_practice.Devices.Proc.{Proc, write_proc, read_proc, read_proc-write_proc, read_proc_twice}
use eltex_practice.Devices.Leds.{IsMask, Parsed, nonneg, negative, loaded, blink, blink-IsMask}
use eltex_practice.Devices.Chardev.{device_write, read_whole, read_whole-device_write}

abbrev text : Bytes
text = 97 ∷ 98 ∷ 99 ∷ []

abbrev empty : Proc
empty = record { msg = []; len = 0; temp = 0 }

read_proc-write_proc_example :
    ((write_proc true text empty).0 ≡ some 3)
    × ((read_proc true 100 (write_proc true text empty).1).0 ≡ some text)
    × (read_proc true 100 (read_proc true 100 (write_proc true text empty).1).1
        ≡ (some [], (write_proc true text empty).1))
read_proc-write_proc_example =
    read_proc-write_proc text 100 empty (omega arith) (omega arith) (omega arith)

read_proc_twice_example :
    ((read_proc true 2 (write_proc true text empty).1).0 ≡ some (97 ∷ 98 ∷ []))
    × ((read_proc true 2 (read_proc true 2 (write_proc true text empty).1).1).0 ≡ some (97 ∷ []))
read_proc_twice_example = read_proc_twice text 2 empty (omega arith) (omega arith) (omega arith)

read_whole-device_write_example :
    ((device_write text).0 ≡ 3) × (read_whole 4 2 0 (device_write text).1 ≡ (text, 0))
read_whole-device_write_example =
    read_whole-device_write text 1 (refl, (refl, (refl, tt))) (omega arith)

-- One digit and a newline are a number, as `kstrtoint` reads them.
abbrev digit : Bytes → Option Parsed
digit [] = none
digit (c ∷ []) = some (nonneg (c - 48))
digit (c ∷ d ∷ s) = if d == 10 then some (nonneg (c - 48)) else some negative

abbrev writes_and_ticks : List (Option Bytes)
writes_and_ticks = none ∷ some (codes "5\n") ∷ none ∷ some (codes "9\n") ∷ none ∷ none ∷ []

blink-IsMask_example : All IsMask (blink digit writes_and_ticks loaded)
blink-IsMask_example = blink-IsMask digit writes_and_ticks loaded (omega arith)
