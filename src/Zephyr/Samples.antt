-- ===== src/Zephyr/Samples.antt =====
-- Plain implementations of the interfaces, which show that they can be met and run in the tests.
use echo_bot.Prelude.{
  ℕ, ◌-◌, ◌≤◌, ◌<◌, ◌≡◌, refl, Option, none, some, List, [], ◌∷◌, ◌++◌, length, ltb, leb, lt→ltb,
  arith, if◌then◌else◌, take, drop, min,
}
use echo_bot.Zephyr.MsgQueue.{MsgQueue}
use echo_bot.Zephyr.ByteRing.{ByteRing}
use echo_bot.Zephyr.ItemRing.{ItemRing, Item, Got, got, too_small, again, used}

abbrev pub uncons {ℓ} : {A : Type ℓ} → List A → Option (A × List A)
uncons [] = none
uncons (x ∷ xs) = some (x, xs)

pub uncons_nil {ℓ} : {A : Type ℓ} (q : List A) → q ≡ [] → uncons q ≡ none
uncons_nil q e = rw e

pub uncons_cons {ℓ} :
    {A : Type ℓ} (q : List A) (a : A) (rest : List A)
    → q ≡ a ∷ rest
    → (q' : List A) × (uncons q ≡ some (a, q')) × (q' ≡ rest)
uncons_cons q a rest e = (rest, rw e, refl)

-- A message queue that is the list of its messages.
abbrev pub list_queue : (A : Type 0) (max_msgs : ℕ) → MsgQueue A max_msgs
list_queue A max_msgs = record {
  Queue = List A;
  put = λ q a. if ltb (length q) max_msgs then q ++ a ∷ [] else q;
  get = uncons;
  messages = λ q. q;
  messages-put = λ q a. refl;
  get_empty = uncons_nil;
  get_oldest = uncons_cons;
}

-- A ring in item mode that is the list of its items.
module _ (capacity : ℕ) where
  abbrev pub put_item : List Item → Item → Option (List Item)
  put_item its it = if ltb it.size32 (capacity - used its) then some (its ++ it ∷ []) else none

  abbrev pub get_item : List Item → ℕ → Got (List Item)
  get_item [] words = again
  get_item (it ∷ its) words = if leb it.size32 words then got it its else too_small it.size32

  pub put_item_fits :
      (its : List Item) (it : Item)
      → it.size32 < capacity - used its
      → (its' : List Item) × (put_item its it ≡ some its') × (its' ≡ its ++ it ∷ [])
  put_item_fits its it h = (its ++ it ∷ [], rw (lt→ltb it.size32 (capacity - used its) h), refl)

  pub put_item_full :
      (its : List Item) (it : Item) → capacity - used its ≤ it.size32 → put_item its it ≡ none
  put_item_full its it h = ground arith

  pub get_item_empty : (its : List Item) (words : ℕ) → its ≡ [] → get_item its words ≡ again
  get_item_empty its words e = rw e

  pub get_item_fits :
      (its : List Item) (words : ℕ) (it : Item) (rest : List Item)
      → its ≡ it ∷ rest
      → it.size32 ≤ words
      → (its' : List Item) × (get_item its words ≡ got it its') × (its' ≡ rest)
  get_item_fits its words it rest e h = (rest, rw e (ground arith), refl)

  pub get_item_too_small :
      (its : List Item) (words : ℕ) (it : Item) (rest : List Item)
      → its ≡ it ∷ rest
      → words < it.size32
      → get_item its words ≡ too_small it.size32
  get_item_too_small its words it rest e h = rw e (ground arith)

  abbrev pub list_ring : ItemRing
  list_ring = record {
    Rb = List Item;
    item_put = put_item;
    item_get = get_item;
    items = λ its. its;
    space = λ its. capacity - used its;
    capacity = capacity;
    space-used = λ its. refl;
    put_fits = put_item_fits;
    put_full = put_item_full;
    get_empty = get_item_empty;
    get_fits = get_item_fits;
    get_too_small = get_item_too_small;
  }

-- A ring in byte mode that is the list of its bytes.
abbrev pub byte_list : (size : ℕ) → ByteRing size
byte_list size = record {
  Rb = List ℕ;
  ring_buf_put = λ rb src. (min (length src) (size - length rb), rb ++ take (size - length rb) src);
  ring_buf_get = λ rb n. (take n rb, drop n rb);
  ring_buf_init = [];
  bytes = λ rb. rb;
  bytes-put = λ rb src. refl;
  count-put = λ rb src. refl;
  taken-get = λ rb n. refl;
  bytes-get = λ rb n. refl;
  bytes-init = refl;
}
