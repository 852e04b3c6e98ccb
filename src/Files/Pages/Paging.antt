-- ===== src/Files/Pages/Paging.antt =====
-- A cursor continues a listing where it stopped.
use swa_drive.Base.{
  ℕ, suc, zero, ◌≡◌, refl, sym, ap, ◌∙◌, Bool, true, false, not, ◌&&◌, ◌||◌, List, [], ◌∷◌, ok,
  arith, inl, inr, Bool-cases, all, any, filter, drop, take, length, ◌==◌,
}
use swa_drive.Base.Text.{Text, text_eq}
use swa_drive.Database.{Db}
use swa_drive.Files.Subtree.{is_shown}
use swa_drive.Files.Index.{Entry, active_generation}
use swa_drive.Files.Pages.{
  Cursor, listed_before, found_before, insert_in_order, in_order, after_listed, after_found,
  list_cursor, search_cursor, children, matches, contains, require_listed, list_index, search_index,
}
use swa_drive.Files.Pages.Order.{IsOrder, listed_before-IsOrder, found_before-IsOrder}

-- No path twice.
unfoldable pub distinct : List Entry → Bool
distinct [] = true
distinct (e ∷ es) = not (any (λ f. text_eq e.path f.path) es) && distinct es

-- Each entry before all that follow.
unfoldable pub ascending : (Entry → Entry → Bool) → List Entry → Bool
ascending before [] = true
ascending before (e ∷ es) = all (before e) es && ascending before es

first_same : {a b : Entry} {xs ys : List Entry} → a ∷ xs ≡ b ∷ ys → a ≡ b
first_same h = cc

rest_same : {a b : Entry} {xs ys : List Entry} → a ∷ xs ≡ b ∷ ys → xs ≡ ys
rest_same h = cc

module _ (before : Entry → Entry → Bool) (order : IsOrder before) where
  all_later :
      (a b : Entry) (es : List Entry)
      → before a b ≡ true
      → all (before b) es ≡ true
      → all (before a) es ≡ true
  all_later a b [] h k = refl
  all_later a b (e ∷ es) h k = ground (arith, order.trans a b e, all_later a b es)

  insert-all :
      (p : Entry → Bool) (e : Entry) (es : List Entry)
      → all p (insert_in_order before e es) ≡ (p e && all p es)
  unfolding insert_in_order
  insert-all p e [] = refl
  insert-all p e (f ∷ fs) = ground (arith, insert-all p e fs)

  insert-ascending :
      (e : Entry) (es : List Entry)
      → any (λ f. text_eq e.path f.path) es ≡ false
      → ascending before es ≡ true
      → ascending before (insert_in_order before e es) ≡ true
  unfolding insert_in_order ascending
  insert-ascending e [] h k = refl
  insert-ascending e (f ∷ fs) h k = elim (Bool-cases (before e f)) [
    | inl l ↦ rw l (ground (arith, all_later e f fs))
    | inr l ↦
        rw (l, insert-all (before f) e fs) (ground (arith, order.total e f, insert-ascending e fs))
  ]

  insert-any :
      (p : Entry → Bool) (e : Entry) (es : List Entry)
      → any p (insert_in_order before e es) ≡ (p e || any p es)
  unfolding insert_in_order
  insert-any p e [] = refl
  insert-any p e (f ∷ fs) = ground (arith, insert-any p e fs)

  in_order-any : (p : Entry → Bool) (es : List Entry) → any p (in_order before es) ≡ any p es
  unfolding in_order
  in_order-any p [] = refl
  in_order-any p (e ∷ es) =
      insert-any p e (in_order before es) ∙ ap (λ b. p e || b) (in_order-any p es)

  in_order-ascending :
      (es : List Entry) → distinct es ≡ true → ascending before (in_order before es) ≡ true
  unfolding in_order distinct ascending
  in_order-ascending [] h = refl
  in_order-ascending (e ∷ es) h =
      insert-ascending e (in_order before es)
        (in_order-any (λ f. text_eq e.path f.path) es ∙ ground arith)
        (in_order-ascending es (ground arith))

  filter_later :
      (x : Entry) (es : List Entry) → all (before x) es ≡ true → filter (before x) es ≡ es
  filter_later x [] h = refl
  filter_later x (e ∷ es) h = ground (arith, filter_later x es)

  all-drop :
      (p : Entry → Bool) (n : ℕ) (es : List Entry) (x : Entry) (rest : List Entry)
      → all p es ≡ true
      → drop n es ≡ x ∷ rest
      → p x ≡ true
  all-drop p zero [] x rest h k = absurd (ground arith)
  all-drop p (suc n) [] x rest h k = absurd (ground arith)
  all-drop p zero (e ∷ es) x rest h k = ap p (sym (first_same k)) ∙ ground arith
  all-drop p (suc n) (e ∷ es) x rest h k = all-drop p n es x rest (ground arith) k

  not_after : (e x : Entry) → before e x ≡ true → before x e ≡ false
  not_after e x h = elim (Bool-cases (before x e)) [
    | inl k ↦ absurd (ground (arith, order.trans e x e h k, order.irrefl e))
    | inr k ↦ k
  ]

  filter_head :
      (e x : Entry) (es rest : List Entry)
      → e ≡ x
      → es ≡ rest
      → all (before e) es ≡ true
      → filter (before x) (e ∷ es) ≡ rest
  filter_head e x es rest a b h =
      let itself : before x e ≡ false = ap (before x) a ∙ order.irrefl x in
      rw itself (filter_later x es (ap (λ z. all (before z) es) (sym a) ∙ h) ∙ b)

  -- What comes after an entry of an ascending list is what follows it.
  filter-drop :
      (n : ℕ) (es : List Entry) (x : Entry) (rest : List Entry)
      → ascending before es ≡ true
      → drop n es ≡ x ∷ rest
      → filter (before x) es ≡ rest
  unfolding ascending
  filter-drop zero [] x rest h k = absurd (ground arith)
  filter-drop (suc n) [] x rest h k = absurd (ground arith)
  filter-drop zero (e ∷ es) x rest h k =
      filter_head e x es rest (first_same k) (rest_same k) (ground arith)
  filter-drop (suc n) (e ∷ es) x rest h k =
      let earlier : before e x ≡ true = all-drop (before e) n es x rest (ground arith) k in
      rw (not_after e x earlier) (filter-drop n es x rest (ground arith) k)

after_listed-cursor :
    (path : Text) (x e : Entry)
    → (length x.normalized_name == 0) ≡ false
    → after_listed (list_cursor path x) e ≡ listed_before x e
unfolding after_listed listed_before
after_listed-cursor path x e h = rw h refl

after_found-cursor :
    (text : Text) (x e : Entry)
    → (length x.normalized_path == 0) ≡ false
    → after_found (search_cursor text x) e ≡ found_before x e
unfolding after_found found_before
after_found-cursor text x e h = rw h refl

filter_same :
    (p q : Entry → Bool) (es : List Entry) → ((e : Entry) → p e ≡ q e) → filter p es ≡ filter q es
filter_same p q [] h = refl
filter_same p q (e ∷ es) h = rw (h e, filter_same p q es h) refl

-- The rows that a listing goes through.
abbrev pub listed_rows : ℕ → Text → List Entry → List Entry
listed_rows g parent es = filter (λ e. is_shown g e && text_eq e.parent_path parent) es

list_index-inv :
    (g : ℕ) (path : Text) (limit : ℕ) (c : Cursor) (db : Db) {page : List Entry}
    → active_generation db.index ≡ ok g
    → list_index path limit c db ≡ ok page
    → require_listed g path db.index.entries ≡ ok tt
unfolding list_index
list_index-inv g path limit c db active h = ground arith

-- Where a directory can be listed at all, and no path in it is indexed twice: a page that begins at the
-- cursor of an entry holds the entries that follow it in the order of the whole listing, up to the
-- limit, so that none is left out and none comes twice.
pub list_index-continues :
    (g : ℕ) (path : Text) (n limit : ℕ) (x : Entry) (rest : List Entry) (c : Cursor) (db : Db)
    {page : List Entry}
    → active_generation db.index ≡ ok g
    → list_index path limit c db ≡ ok page
    → distinct (listed_rows g path db.index.entries) ≡ true
    → (length x.normalized_name == 0) ≡ false
    → drop n (children g path db.index.entries) ≡ x ∷ rest
    → list_index path limit (list_cursor path x) db ≡ ok (take limit rest)
unfolding list_index children
list_index-continues g path n limit x rest c db active h unique named place =
    let listed = list_index-inv g path limit c db active h in
    let rows = children g path db.index.entries in
    let sorted : ascending listed_before rows ≡ true =
      in_order-ascending listed_before listed_before-IsOrder (listed_rows g path db.index.entries)
        unique in
    let following : filter (after_listed (list_cursor path x)) rows ≡ rest =
      filter_same (after_listed (list_cursor path x)) (listed_before x) rows
        (λ e. after_listed-cursor path x e named)
      ∙ filter-drop listed_before listed_before-IsOrder n rows x rest sorted place in
    rw (active, listed, following) refl

-- The rows that a search goes through.
abbrev pub found_rows : ℕ → Text → List Entry → List Entry
found_rows g text es =
    filter
      (λ e. is_shown g e && (contains text e.normalized_name || contains text e.normalized_path)) es

-- Where the index is healthy and no path that matches is indexed twice: a page of a search that begins at
-- the cursor of an entry holds the matches that follow it in the order of the whole search, up to the
-- limit.
search_index-continues :
    (g : ℕ) (text : Text) (n limit : ℕ) (x : Entry) (rest : List Entry) (db : Db)
    → active_generation db.index ≡ ok g
    → distinct (found_rows g text db.index.entries) ≡ true
    → (length x.normalized_path == 0) ≡ false
    → drop n (matches g text db.index.entries) ≡ x ∷ rest
    → search_index text limit (search_cursor text x) db ≡ ok (take limit rest)
unfolding search_index matches
search_index-continues g text n limit x rest db active unique named place =
    let rows = matches g text db.index.entries in
    let sorted : ascending found_before rows ≡ true =
      in_order-ascending found_before found_before-IsOrder (found_rows g text db.index.entries)
        unique in
    let following : filter (after_found (search_cursor text x)) rows ≡ rest =
      filter_same (after_found (search_cursor text x)) (found_before x) rows
        (λ e. after_found-cursor text x e named)
      ∙ filter-drop found_before found_before-IsOrder n rows x rest sorted place in
    rw (active, following) refl
