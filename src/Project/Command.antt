-- ===== src/Project/Command.antt =====
-- src/project/command.rs: the commands of an in-process undo stack. A command keeps what it replaced.
pub mod Restore
use windy_public.Prelude.{ℕ, ◌≡◌, refl, String, Option, none, some, List, [], ◌∷◌}
use windy_public.Project.Tables.{
  SymbolKind, Symbol, CommentScope, insert_symbol, remove_symbol, get_comment, set_comment_text,
  remove_comment,
}
use windy_public.Project.State.{Project}

-- `Box<dyn Command>`: one constructor for each implementation of the trait.
mutual
  pub data Command : Type 0 where
    set_name : ℕ → String → SymbolKind → Option Symbol → Command
    set_comment : ℕ → String → CommentScope → Option String → Command
    batch_rename : Commands → Command

  pub data Commands : Type 0 where
    nil : Commands
    cons : Command → Commands → Commands

unfoldable pub undo_name : ℕ → Option Symbol → Project → Project
undo_name addr none p = record p { symbols = remove_symbol p.symbols addr }
undo_name addr (some s) p = record p { symbols = insert_symbol p.symbols addr s.name s.kind }

unfoldable pub undo_comment : ℕ → CommentScope → Option String → Project → Project
undo_comment addr scope none p = record p { comments = remove_comment p.comments addr scope }
undo_comment addr scope (some t) p = record p {
  comments = set_comment_text p.comments addr scope t;
}

-- `Command::apply`: the command with the old value, and the changed project.
unfoldable mutual
  pub apply : Command → Project → Command × Project
  apply (set_name addr name kind old) p = (
    set_name addr name kind (p.symbols addr),
    record p { symbols = insert_symbol p.symbols addr name kind },
  )
  apply (set_comment addr text scope old) p = (
    set_comment addr text scope (get_comment p.comments addr scope),
    record p { comments = set_comment_text p.comments addr scope text },
  )
  apply (batch_rename cs) p = let (cs', p') = apply_each cs p in (batch_rename cs', p')

  pub apply_each : Commands → Project → Commands × Project
  apply_each nil p = (nil, p)
  apply_each (cons c cs) p =
      let (c', p') = apply c p in let (cs', p'') = apply_each cs p' in (cons c' cs', p'')

-- `Command::undo`. A batch is undone from its last command to its first.
unfoldable mutual
  unfolding undo_name undo_comment

  pub undo : Command → Project → Project
  undo (set_name addr name kind old) p = undo_name addr old p
  undo (set_comment addr text scope old) p = undo_comment addr scope old p
  undo (batch_rename cs) p = undo_each cs p

  pub undo_each : Commands → Project → Project
  undo_each nil p = p
  undo_each (cons c cs) p = undo c (undo_each cs p)

-- The last element of a Rust `Vec` is the head of these lists.
pub record CommandStack : Type 0 where
  pub undos : List Command
  pub redos : List Command

unfoldable pub execute : CommandStack → Project → Command → CommandStack × Project
execute s p cmd =
    let (cmd', p') = apply cmd p in (record { undos = cmd' ∷ s.undos; redos = [] }, p')

unfoldable pub undo_from : CommandStack → Project → List Command → CommandStack × Project
undo_from s p [] = (s, p)
undo_from s p (cmd ∷ rest) = (record { undos = rest; redos = cmd ∷ s.redos }, undo cmd p)

unfoldable pub undo_last : CommandStack → Project → CommandStack × Project
unfolding undo_from
undo_last s p = undo_from s p s.undos

unfoldable pub redo_from : CommandStack → Project → List Command → CommandStack × Project
redo_from s p [] = (s, p)
redo_from s p (cmd ∷ rest) =
    let (cmd', p') = apply cmd p in (record { undos = cmd' ∷ s.undos; redos = rest }, p')

unfoldable pub redo_last : CommandStack → Project → CommandStack × Project
unfolding redo_from
redo_last s p = redo_from s p s.redos
