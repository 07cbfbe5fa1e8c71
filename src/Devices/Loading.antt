-- ===== src/Devices/Loading.antt =====
-- Loading and unloading the modules that keep a text: module5/task2/proc_module.c and
-- module5/task4/chardev.c. `attribute` is the file in /proc or the device, `kobject` the class, and `named`
-- the registered driver.
use eltex_practice.Base.{
  refl, Bool, true, false, not, List, [], ◌∷◌, ◌++◌, Bytes, codes, if◌then◌else◌, inl, inr,
}
use eltex_practice.Resources.{named, kobject, attribute, memory, Effect, takes, frees, Released}

-- Loading never fails; the results of `proc_create` and `kmalloc` are not tested.
unfoldable pub proc_init : Bool → Bool → List Effect
proc_init proc_create_works kmalloc_works =
    (if proc_create_works then takes attribute ∷ [] else [])
    ++ (if kmalloc_works then takes memory ∷ [] else [])

abbrev pub proc_cleanup : List Effect
proc_cleanup = frees attribute ∷ frees memory ∷ []

abbrev pub device_name : Bytes
device_name = codes "chardev"

-- Whether loading succeeds: the results of `class_create` and `device_create` are not tested.
unfoldable pub chardev_init : Bool → Bool → Bool → Bool × List Effect
chardev_init register_works class_works device_works = if not register_works then (false, []) else (
  true,
  takes (named device_name)
      ∷ ((if class_works then takes kobject ∷ [] else [])
          ++ (if device_works then takes attribute ∷ [] else [])),
)

abbrev pub chardev_exit : List Effect
chardev_exit = frees attribute ∷ frees kobject ∷ frees (named device_name) ∷ []

-- Unloading takes down what loading has set up.
pub proc-Released :
    (proc_create_works kmalloc_works : Bool)
    → Released (proc_init proc_create_works kmalloc_works ++ proc_cleanup)
unfolding proc_init
proc-Released true true = (inl refl, (inr (inl refl), tt))
proc-Released true false = (inl refl, tt)
proc-Released false true = (inr (inl refl), tt)
proc-Released false false = tt

pub chardev-Released :
    (register_works class_works device_works : Bool)
    → let run = chardev_init register_works class_works device_works in
      Released (run.1 ++ (if run.0 then chardev_exit else []))
unfolding chardev_init
chardev-Released false c d = tt
chardev-Released true true true = (inr (inr (inl refl)), (inr (inl refl), (inl refl, tt)))
chardev-Released true true false = (inr (inr (inl refl)), (inr (inl refl), tt))
chardev-Released true false true = (inr (inr (inl refl)), (inl refl, tt))
chardev-Released true false false = (inr (inr (inl refl)), tt)
