-- ===== src/Documents/Sorted.antt =====
-- src/documents.rs: sorting entries by name moves them and loses none.
use remarkable_server.Base.{bytes_lt, List, [], ◌∷◌, ◌++◌, All, if_intro}
use mathlib.Core.List.{Perm}
use mathlib.Core.List.Perm
use remarkable_server.Documents.{Entry, insert_by_name, sort_by_name}

-- The same entries, in some order.
abbrev pub IsShuffle : List Entry → List Entry → Type 0
IsShuffle = Perm

insert_by_name-IsShuffle : (e : Entry) (fs : List Entry) → IsShuffle (insert_by_name e fs) (e ∷ fs)
unfolding insert_by_name
insert_by_name-IsShuffle e [] = Perm.refl (e ∷ [])
insert_by_name-IsShuffle e (f ∷ fs) =
    if_intro (λ l. IsShuffle l (e ∷ f ∷ fs)) (bytes_lt f.name e.name) (f ∷ insert_by_name e fs)
      (e ∷ f ∷ fs)
      (λ q. Perm.trans (Perm.cons f (insert_by_name-IsShuffle e fs)) ((Perm.swap e f fs)))
      (λ q. Perm.refl (e ∷ f ∷ fs))

pub sort_by_name-IsShuffle : (es : List Entry) → IsShuffle (sort_by_name es) es
unfolding sort_by_name
sort_by_name-IsShuffle [] = Perm.refl []
sort_by_name-IsShuffle (e ∷ es) =
    Perm.trans (insert_by_name-IsShuffle e (sort_by_name es))
      (Perm.cons e (sort_by_name-IsShuffle es))

module _ (P : Entry → Type 0) where
  insert_by_name-All : (e : Entry) (fs : List Entry) → P e → All P fs → All P (insert_by_name e fs)
  unfolding insert_by_name
  insert_by_name-All e [] h h' = (h, tt)
  insert_by_name-All e (f ∷ fs) h h' =
      if_intro (All P) (bytes_lt f.name e.name) (f ∷ insert_by_name e fs) (e ∷ f ∷ fs)
        (λ q. (h'.0, insert_by_name-All e fs h h'.1)) (λ q. (h, h'))

  pub sort_by_name-All : (es : List Entry) → All P es → All P (sort_by_name es)
  unfolding sort_by_name
  sort_by_name-All [] h = tt
  sort_by_name-All (e ∷ es) h = insert_by_name-All e (sort_by_name es) h.0 (sort_by_name-All es h.1)

  pub All-joined : (es fs : List Entry) → All P es → All P fs → All P (es ++ fs)
  All-joined [] fs h h' = h'
  All-joined (e ∷ es) fs h h' = (h.0, All-joined es fs h.1 h')
