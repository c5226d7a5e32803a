-- ===== src/Project/Undo/Records.antt =====
-- The two operations that change a part of a record: a parameter's name, and a memory card.
use windy_public.Prelude.{
  ℕ, zero, suc, ◌<◌, ◌≡◌, refl, ap, String, true, Option, none, some, List, [], ◌∷◌, arith, nat_eq,
  if◌then◌else◌, length, Bool-cases, inl, inr,
}
use windy_public.KeyMap.{
  KeyMap, insert, remove, insert_back, get-insert_self, insert-get, remove-insert, remove_absent,
  insert-remove, remove-remove,
}
use windy_public.Project.Types.{DataType, FunctionSignature}
use windy_public.Project.Tables.{FunctionMemoryCard, is_clear, clear_card}
use windy_public.Project.State.{Project}
use windy_public.Project.Op.{set_param_name, set_function_memory, capture}
use windy_public.Project.Apply.{apply_to, rename_param, param_name, padded_signature}
use windy_public.Project.Inverse.{inverse, card_or_clear}
use windy_public.Project.View.{View, view, effect, unstamped_all, named_signature}
use windy_public.Project.Undo.Leaves.{HadParam, IsFiled, undone, pad_params_room, rename_param_back}

length-rename_param :
    (i : ℕ) (name : String) (ps : List (String × DataType))
    → length (rename_param i name ps) ≡ length ps
unfolding rename_param
length-rename_param i name [] = refl
length-rename_param zero name (q ∷ ps) = refl
length-rename_param (suc i) name (q ∷ ps) = ap suc (length-rename_param i name ps)

param_name-some :
    (i : ℕ) (ps : List (String × DataType))
    → i < length ps
    → (old : String) × (param_name ps i ≡ some old)
param_name-some i [] h = absurd (omega arith)
param_name-some zero (q ∷ ps) h = (q.0, refl)
param_name-some (suc i) (q ∷ ps) h = param_name-some i ps (omega arith)

named_signature_room :
    (v : View) (va i : ℕ) (name : String) (s : FunctionSignature)
    → v.function_signatures va ≡ some s
    → i < length s.params
    → named_signature v va i name ≡ record s { params = rename_param i name s.params }
unfolding named_signature
named_signature_room v va i name s h room = rw h (rw (pad_params_room (suc i) i s.params room))

padded_signature_room :
    (p : Project) (va i : ℕ) (s : FunctionSignature)
    → p.function_signatures va ≡ some s
    → i < length s.params
    → padded_signature p va i ≡ s
unfolding padded_signature
padded_signature_room p va i s h room =
    rw h (λ j. record s { params = pad_params_room (suc i) i s.params room j })

pub param_undone :
    (va i : ℕ) (name : String) (p : Project)
    → HadParam p va i
    → undone (set_param_name va i name none) p ≡ view p
unfolding inverse apply_to effect capture
param_undone va i name p (s, h, room) =
    let (old, ho) = param_name-some i s.params room in
    let s' : FunctionSignature = record s { params = rename_param i name s.params } in
    let w : View = record (view p) { function_signatures = insert p.function_signatures va s' } in
    let room' : i < length s'.params = rw (length-rename_param i name s.params) room in
    let back : insert (insert p.function_signatures va s') va
          (record s { params = rename_param i old s'.params })
        ≡ p.function_signatures =
      rw (rename_param_back i name old s.params ho) (insert_back p.function_signatures va s' s h) in
    rw (named_signature_room (view p) va i name s h room) (
      rw h (
        rw (pad_params_room (suc i) i s.params room) (
          rw ho (
            rw
              (named_signature_room w va i old s' (get-insert_self p.function_signatures va s')
                room')
              (λ j. record (view p) { function_signatures = back j })))))

unstamped_none :
    (m : KeyMap ℕ FunctionMemoryCard) (va : ℕ) → m va ≡ none → unstamped_all m va ≡ none
unstamped_none m va h = rw h

unstamped_some :
    (m : KeyMap ℕ FunctionMemoryCard) (va : ℕ) (q : FunctionMemoryCard)
    → m va ≡ some q
    → q.va ≡ va
    → unstamped_all m va ≡ some (record q { va = va; updated_seq = 0 })
unstamped_some m va q h e = rw h (λ i. some (record q { va = e i; updated_seq = 0 }))

is_clear-clear_card : (va : ℕ) → is_clear (clear_card va) ≡ true
unfolding is_clear
is_clear-clear_card va = refl

-- The memory cards after an operation that writes `c`.
abbrev written : KeyMap ℕ FunctionMemoryCard → ℕ → FunctionMemoryCard → KeyMap ℕ FunctionMemoryCard
written m va c =
    if is_clear c then remove m va else insert m va (record c { va = va; updated_seq = 0 })

card_back :
    (m : KeyMap ℕ FunctionMemoryCard) (va : ℕ) (old : Option FunctionMemoryCard)
    (c : FunctionMemoryCard)
    → m va ≡ old
    → IsFiled va old
    → written (written (unstamped_all m) va c) va (card_or_clear va old) ≡ unstamped_all m
card_back m va none c h f = rw (is_clear-clear_card va) (elim (Bool-cases (is_clear c)) [
  | inl e ↦ rw e (rw remove-remove (remove_absent (unstamped_all m) va (unstamped_none m va h)))
  | inr e ↦ rw e (remove-insert (unstamped_all m) va _ (unstamped_none m va h))
])
card_back m va (some q) c h f = rw f.1 (elim (Bool-cases (is_clear c)) [
  | inl e ↦
      rw e (rw insert-remove (insert-get (unstamped_all m) va _ (unstamped_some m va q h f.0)))
  | inr e ↦ rw e (insert_back (unstamped_all m) va _ _ (unstamped_some m va q h f.0))
])

pub memory_undone :
    (va : ℕ) (c : FunctionMemoryCard) (p : Project)
    → IsFiled va (p.function_memory va)
    → undone (set_function_memory va c none) p ≡ view p
unfolding inverse apply_to effect capture
memory_undone va c p f = λ i. record (view p) {
  function_memory = card_back p.function_memory va (p.function_memory va) c refl f i;
}
