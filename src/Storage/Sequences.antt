-- ===== src/Storage/Sequences.antt =====
-- What a storage promises of its lists, as a specification: a list for each key, and what a sequence
-- of list operations answers.
use koala_v.Prelude.{
  ℤ, pos, Text, text_eq, List, [], ◌∷◌, ◌++◌, reverse, length, Option, none, ◌≡◌, refl, ap, ◌∙◌,
  arith, if◌then◌else◌,
}
use koala_v.Storage.{Storage, Error}
use koala_v.Storage.Laws.{ListLaws, window}

-- The list operations that the algorithms use, with their arguments.
pub data ListOp : Type 0 where
  push : Text → List ℤ → ListOp
  trim range : Text → ℤ → ℤ → ListOp
  len : Text → ListOp

-- An error, a length or the elements.
pub data Reply : Type 0 where
  status : Option Error → Reply
  number : ℤ → Option Error → Reply
  numbers : List ℤ → Option Error → Reply

module _ {S : Type 0} (store : Storage S) where
  abbrev pub perform : ℤ → ListOp → S → Reply × S
  perform now (push key values) s =
      let (err, s₁) = store.l_push now key values s in (status err, s₁)
  perform now (trim key start stop) s =
      let (err, s₁) = store.l_trim now key start stop s in (status err, s₁)
  perform now (range key start stop) s =
      let (xs, err, s₁) = store.l_range now key start stop s in (numbers xs err, s₁)
  perform now (len key) s = let (n, err, s₁) = store.l_len now key s in (number n err, s₁)

  -- The answers to operations at their instants.
  abbrev pub replies : List (ℤ × ListOp) → S → List Reply
  replies [] s = []
  replies ((now, op) ∷ ops) s = let (r, s₁) = perform now op s in r ∷ replies ops s₁

-- The specification's state: the list of each key.
abbrev pub Lists : Type 0
Lists = Text → List ℤ

abbrev pub put : Text → List ℤ → Lists → Lists
put key xs f j = if text_eq key j then xs else f j

abbrev pub perform_spec : ListOp → Lists → Reply × Lists
perform_spec (push key values) f = (status none, put key (reverse values ++ f key) f)
perform_spec (trim key start stop) f = (status none, put key (window start stop (f key)) f)
perform_spec (range key start stop) f = (numbers (window start stop (f key)) none, f)
perform_spec (len key) f = (number (pos (length (f key))) none, f)

abbrev pub replies_spec : List (ℤ × ListOp) → Lists → List Reply
replies_spec [] f = []
replies_spec ((now, op) ∷ ops) f = let (r, f₁) = perform_spec op f in r ∷ replies_spec ops f₁

-- The operations push only what fits.
abbrev pub OpFits : (List ℤ → Type 0) → ListOp → Type 0
OpFits Fits (push key values) = Fits values
OpFits Fits (trim key start stop) = Unit
OpFits Fits (range key start stop) = Unit
OpFits Fits (len key) = Unit

abbrev pub AllFit : (List ℤ → Type 0) → List (ℤ × ListOp) → Type 0
AllFit Fits [] = Unit
AllFit Fits ((now, op) ∷ ops) = OpFits Fits op × AllFit Fits ops

-- A storage implements the specification, by a relation between the specification's states and its
-- own, for the values that fit.
pub record Implements {S : Type 0} (store : Storage S) (Fits : List ℤ → Type 0)
    (Shows : Lists → S → Type 0) : Type 0 where
  pub step :
      (now : ℤ) (op : ListOp) (f : Lists) (s : S)
      → OpFits Fits op
      → Shows f s
      → ((perform store now op s).0 ≡ (perform_spec op f).0)
        × Shows (perform_spec op f).1 (perform store now op s).1

pub replies-Implements :
    {S : Type 0} (store : Storage S) (Fits : List ℤ → Type 0) (Shows : Lists → S → Type 0)
    → Implements store Fits Shows
    → (ops : List (ℤ × ListOp)) (f : Lists) (s : S) → AllFit Fits ops
    → Shows f s
    → replies store ops s ≡ replies_spec ops f
replies-Implements store Fits Shows i [] f s a h = refl
replies-Implements store Fits Shows i ((now, op) ∷ ops) f s (fits, a) h =
    let (e, h') = i.step now op f s fits h in
    ap (λ r. r ∷ replies store ops (perform store now op s).1) e
    ∙ ap (λ rs. (perform_spec op f).0 ∷ rs) (replies-Implements store Fits Shows i ops _ _ a h')

-- A storage with the laws of lists implements the specification while it is open.
abbrev pub ShowsItems :
    {S : Type 0} {store : Storage S} (laws : ListLaws store) → Lists → S → Type 0
ShowsItems laws f s = laws.IsOpen s × ((key : Text) → laws.items key s ≡ f key)

abbrev pub Anything : List ℤ → Type 0
Anything values = Unit

module _ {S : Type 0} (store : Storage S) (laws : ListLaws store) where
  perform-ShowsItems :
      (now : ℤ) (op : ListOp) (f : Lists) (s : S)
      → ShowsItems laws f s
      → ((perform store now op s).0 ≡ (perform_spec op f).0)
        × ShowsItems laws (perform_spec op f).1 (perform store now op s).1
  perform-ShowsItems now (push key values) f s (o, h) = (
    ap status (laws.l_push-error now key values s o),
    (
      laws.l_push-IsOpen now key values s o,
      λ j. ground (arith, laws.items-l_push now key j values s o, h key, h j),
    ),
  )
  perform-ShowsItems now (trim key start stop) f s (o, h) = (
    ap status (laws.l_trim-error now key start stop s o),
    (
      laws.l_trim-IsOpen now key start stop s o,
      λ j. ground (arith, laws.items-l_trim now key j start stop s o, h key, h j),
    ),
  )
  perform-ShowsItems now (range key start stop) f s (o, h) = (
    ground (
      arith,
      laws.l_range-value now key start stop s o,
      laws.l_range-error now key start stop s o,
      h key,
    ),
    rw (laws.l_range-state now key start stop s o) (o, h),
  )
  perform-ShowsItems now (len key) f s (o, h) = (
    ground (arith, laws.l_len-value now key s o, laws.l_len-error now key s o, h key),
    rw (laws.l_len-state now key s o) (o, h),
  )

  pub ListLaws-Implements : Implements store Anything (ShowsItems laws)
  ListLaws-Implements = record { step = λ now op f s fits h. perform-ShowsItems now op f s h }
