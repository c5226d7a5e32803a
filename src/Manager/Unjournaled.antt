-- ===== src/Manager/Unjournaled.antt =====
-- What an append to the journal that fails leaves behind.
use windy_public.Prelude.{ℕ, [], ◌∷◌, ◌++◌, length}
use windy_public.Project.State.{Project}
use windy_public.Project.Op.{Op}
use windy_public.Journal.{Codec, newline}
use windy_public.Manager.{Writer, advance}
use windy_public.Manager.Durable.{record_of}

module _ (codec : Codec) (fresh : Project) where
  -- The number of bytes that an operation adds to the journal.
  abbrev pub line_length : Writer → Op → ℕ
  line_length w op =
      length (codec.encode (record_of codec fresh (advance op w.project)) ++ newline ∷ [])
