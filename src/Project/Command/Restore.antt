-- ===== src/Project/Command/Restore.antt =====
-- A command of the undo stack is undone exactly, whatever was there before.
use windy_public.Prelude.{ℕ, ◌≡◌, refl, ap, ◌∙◌, String, Option, none, some, [], ◌∷◌, nat_eq}
use windy_public.KeyMap.{insert_back, remove-insert}
use windy_public.Project.Tables.{
  SymbolKind, Symbol, CommentScope, address_scope, function_scope, insert_symbol, remove_symbol,
  get_comment, set_comment_text, remove_comment,
}
use windy_public.Project.State.{Project}
use windy_public.Project.Command.{
  Command, Commands, set_name, set_comment, batch_rename, nil, cons, apply, apply_each, undo,
  undo_each, undo_name, undo_comment, CommandStack, execute, undo_last, redo_last,
}

undo_name_back :
    (addr : ℕ) (name : String) (kind : SymbolKind) (old : Option Symbol) (p : Project)
    → p.symbols addr ≡ old
    → undo_name addr old (record p { symbols = insert_symbol p.symbols addr name kind }) ≡ p
unfolding undo_name insert_symbol remove_symbol
undo_name_back addr name kind none p h = λ i. record p {
  symbols = remove-insert p.symbols addr (record { name = name; kind = kind }) h i;
}
undo_name_back addr name kind (some s) p h = λ i. record p {
  symbols = insert_back p.symbols addr (record { name = name; kind = kind }) s h i;
}

undo_comment_back :
    (addr : ℕ) (scope : CommentScope) (text : String) (old : Option String) (p : Project)
    → get_comment p.comments addr scope ≡ old
    → undo_comment addr scope old
        (record p { comments = set_comment_text p.comments addr scope text })
      ≡ p
unfolding undo_comment set_comment_text remove_comment get_comment
undo_comment_back addr address_scope text none p h = λ i. record p {
  comments = record p.comments { by_addr = remove-insert p.comments.by_addr addr text h i };
}
undo_comment_back addr address_scope text (some t) p h = λ i. record p {
  comments = record p.comments { by_addr = insert_back p.comments.by_addr addr text t h i };
}
undo_comment_back addr function_scope text none p h = λ i. record p {
  comments = record p.comments { by_function = remove-insert p.comments.by_function addr text h i };
}
undo_comment_back addr function_scope text (some t) p h = λ i. record p {
  comments = record p.comments { by_function = insert_back p.comments.by_function addr text t h i };
}

mutual
  unfolding apply undo

  undo_applied : (c : Command) (p : Project) → undo (apply c p).0 (apply c p).1 ≡ p
  undo_applied (set_name addr name kind old) p =
      undo_name_back addr name kind (p.symbols addr) p refl
  undo_applied (set_comment addr text scope old) p =
      undo_comment_back addr scope text (get_comment p.comments addr scope) p refl
  undo_applied (batch_rename cs) p = undo_each_applied cs p

  undo_each_applied :
      (cs : Commands) (p : Project) → undo_each (apply_each cs p).0 (apply_each cs p).1 ≡ p
  undo_each_applied nil p = refl
  undo_each_applied (cons c cs) p =
      ap (undo (apply c p).0) (undo_each_applied cs (apply c p).1) ∙ undo_applied c p

-- Applying a command again, whatever it had captured.
mutual
  unfolding apply

  apply_again : (c : Command) (p q : Project) → apply (apply c p).0 q ≡ apply c q
  apply_again (set_name addr name kind old) p q = refl
  apply_again (set_comment addr text scope old) p q = refl
  apply_again (batch_rename cs) p q =
      ap (λ (r : Commands × Project). let r' : Command × Project = (batch_rename r.0, r.1) in r')
        (apply_each_again cs p q)

  apply_each_again :
      (cs : Commands) (p q : Project) → apply_each (apply_each cs p).0 q ≡ apply_each cs q
  apply_each_again nil p q = refl
  apply_each_again (cons c cs) p q =
      rw (apply_again c p q) (rw (apply_each_again cs (apply c p).1 (apply c q).1))

-- Undoing right after a command gives back the project as it was, with the command on the redo
-- stack and the undo stack as before.
pub undo_last-execute :
    (s : CommandStack) (p : Project) (c : Command)
    → undo_last (execute s p c).0 (execute s p c).1
      ≡ (record { undos = s.undos; redos = (apply c p).0 ∷ [] }, p)
unfolding undo_last execute
undo_last-execute s p c =
    λ i. (record { undos = s.undos; redos = (apply c p).0 ∷ [] }, undo_applied c p i)

-- Undoing a command and redoing it leaves the stack and the project that executing it left.
pub redo_last-undo_last :
    (s : CommandStack) (p : Project) (c : Command)
    → (let (s', p') = undo_last (execute s p c).0 (execute s p c).1 in redo_last s' p')
      ≡ execute s p c
unfolding undo_last execute redo_last
redo_last-undo_last s p c = rw (undo_applied c p) (rw (apply_again c p p))
