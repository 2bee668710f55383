-- ===== src/ConcurrentArray/Tests.antt =====
-- Small rings, and the theorems about `concurrent_array` at them.
use serversidedev.Prelude.{◌<◌, ◌≡◌, ◌≢◌, refl, some, [], ◌∷◌, arith, ◌==◌, if◌then◌else◌}
use serversidedev.ConcurrentArray.{
  ConcurrentArray, init, append, waits, stored, store, get, took, clear,
}
use serversidedev.ConcurrentArray.Queue.{Holds, init-Holds, append_refines, get_refines}
use serversidedev.ConcurrentArray.Destroy.{Destroyed, destroy, done, destroy-ne-done}

abbrev one_item : ConcurrentArray
one_item = store (init 3) 7

abbrev two_items : ConcurrentArray
two_items = store one_item 8

one_item-Holds : Holds one_item (7 ∷ [])
unfolding init
one_item-Holds = (append_refines (init-Holds 3 (omega arith)) 7).1 (omega arith)

two_items-Holds : Holds two_items (7 ∷ 8 ∷ [])
unfolding init store
two_items-Holds = (append_refines one_item-Holds 8).1 (omega arith)

append_refines_example :
    (append two_items (some 9)
      ≡ (if 2 == two_items.size then waits else stored two_items.pindex (store two_items 9)))
    × (2 < two_items.size → Holds (store two_items 9) (7 ∷ 8 ∷ 9 ∷ []))
append_refines_example = append_refines two_items-Holds 9

get_refines_example : get two_items ≡ took (some 7) (clear two_items)
get_refines_example = get_refines (7 ∷ 8 ∷ []) two_items-Holds

destroy-ne-done_example : destroy 100 two_items ≢ done (7 ∷ 8 ∷ [])
unfolding init store
destroy-ne-done_example = destroy-ne-done two_items-Holds refl 100 (7 ∷ 8 ∷ [])

-- The loop comes back to slot 0, which it has deleted.
destroy_double : destroy 100 two_items ≡ Destroyed.use_after_free
unfolding destroy init store
destroy_double = refl
