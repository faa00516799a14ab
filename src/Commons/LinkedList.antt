-- ===== src/Commons/LinkedList.antt =====
-- The doubly linked list and the queue of liblcthw (commons/src/list.h, commons/src/queue.h), as the
-- daemons use them. The library itself is a copy of third-party code: it enters as an interface.
use in4230_mip.Prelude.{
  ℕ, ◌≡◌, refl, Option, List, [], ◌∷◌, ◌++◌, length, remove_at, last?, drop_last,
}

-- A handle is the `List *`; `items` are the values from `first` along `next`, which is the order in
-- which LIST_FOREACH meets them. A node is named by its position in that order.
pub record LinkedList (A : Type 0) : Type 1 where
  pub Handle : Type 0
  pub items : Handle → List A
  pub count : Handle → ℕ
  pub create : Handle
  pub push : Handle → A → Handle
  pub unshift : Handle → A → Handle
  pub remove : Handle → ℕ → Handle
  pub pop : Handle → Option A × Handle
  pub count-items : (l : Handle) → count l ≡ length (items l)
  pub items-create : items create ≡ []
  pub items-push : (l : Handle) (a : A) → items (push l a) ≡ items l ++ a ∷ []
  pub items-unshift : (l : Handle) (a : A) → items (unshift l a) ≡ a ∷ items l
  pub items-remove : (l : Handle) (i : ℕ) → items (remove l i) ≡ remove_at i (items l)
  pub pop-last : (l : Handle) → (pop l).0 ≡ last? (items l)
  pub items-pop : (l : Handle) → items (pop l).1 ≡ drop_last (items l)

-- Plain lists meet the interface.
abbrev pub plain : (A : Type 0) → LinkedList A
plain A = record {
  Handle = List A;
  items = λ l. l;
  count = length;
  create = [];
  push = λ l a. l ++ a ∷ [];
  unshift = λ l a. a ∷ l;
  remove = λ l i. remove_at i l;
  pop = λ l. (last? l, drop_last l);
  count-items = λ l. refl;
  items-create = refl;
  items-push = λ l a. refl;
  items-unshift = λ l a. refl;
  items-remove = λ l i. refl;
  pop-last = λ l. refl;
  items-pop = λ l. refl;
}
