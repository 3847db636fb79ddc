-- ===== src/Zephyr/ItemRing.antt =====
-- A ring buffer in item mode, `struct ring_buf` with ring_buf_item_put and ring_buf_item_get.
use echo_bot.Prelude.{ℕ, ◌+◌, ◌-◌, ◌≤◌, ◌<◌, ◌≡◌, Option, none, some, List, [], ◌∷◌, ◌++◌}

-- An item: a type, a value, and `size32` words, here as their bytes.
pub record Item : Type 0 where
  pub kind : ℕ
  pub value : ℕ
  pub size32 : ℕ
  pub bytes : List ℕ

-- What ring_buf_item_get answers: 0 and the item, -EMSGSIZE and the words that are needed, -EAGAIN.
pub data Got (Rb : Type 0) : Type 0 where
  got : Item → Rb → Got Rb
  too_small : ℕ → Got Rb
  again : Got Rb

-- The words that items take: their own, and one each.
abbrev pub used : List Item → ℕ
used [] = 0
used (it ∷ its) = it.size32 + 1 + used its

pub record ItemRing : Type 1 where
  pub Rb : Type 0
  -- `none` is -EMSGSIZE.
  pub item_put : Rb → Item → Option Rb
  -- The second argument is the room that the caller has, in words.
  pub item_get : Rb → ℕ → Got Rb
  -- the items, oldest first
  pub items : Rb → List Item
  -- the free words
  pub space : Rb → ℕ
  -- all words
  pub capacity : ℕ
  pub space-used : (rb : Rb) → space rb ≡ capacity - used (items rb)
  -- An item takes a word of its own besides its words.
  pub put_fits :
      (rb : Rb) (it : Item)
      → it.size32 < space rb
      → (rb' : Rb) × (item_put rb it ≡ some rb') × (items rb' ≡ items rb ++ it ∷ [])
  pub put_full : (rb : Rb) (it : Item) → space rb ≤ it.size32 → item_put rb it ≡ none
  pub get_empty : (rb : Rb) (words : ℕ) → items rb ≡ [] → item_get rb words ≡ again
  pub get_fits :
      (rb : Rb) (words : ℕ) (it : Item) (rest : List Item)
      → items rb ≡ it ∷ rest
      → it.size32 ≤ words
      → (rb' : Rb) × (item_get rb words ≡ got it rb') × (items rb' ≡ rest)
  pub get_too_small :
      (rb : Rb) (words : ℕ) (it : Item) (rest : List Item)
      → items rb ≡ it ∷ rest
      → words < it.size32
      → item_get rb words ≡ too_small it.size32
