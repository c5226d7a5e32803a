-- ===== src/Project/Tables.antt =====
-- src/project/symbols.rs, src/project/comments.rs and src/project/memory.rs: the tables of names,
-- comments and memory cards.
use windy_public.Prelude.{
  ℕ, String, Bool, true, false, ◌&&◌, Option, none, some, List, [], ◌∷◌, nat_eq, string_eq,
}
use windy_public.KeyMap.{KeyMap, insert, remove}
use mathlib.Core.Option

pub data SymbolKind : Type 0 where
  import export function data_symbol user : SymbolKind

pub record Symbol : Type 0 where
  pub name : String
  pub kind : SymbolKind

-- `SymbolTable::by_addr`
abbrev pub SymbolTable : Type 0
SymbolTable = KeyMap ℕ Symbol

unfoldable pub insert_symbol : SymbolTable → ℕ → String → SymbolKind → SymbolTable
insert_symbol table addr name kind = insert table addr (record { name = name; kind = kind })

unfoldable pub symbol_name : SymbolTable → ℕ → Option String
symbol_name table addr = Option.map (λ s. s.name) (table addr)

unfoldable pub symbol_kind : SymbolTable → ℕ → Option SymbolKind
symbol_kind table addr = Option.map (λ s. s.kind) (table addr)

unfoldable pub remove_symbol : SymbolTable → ℕ → SymbolTable
remove_symbol table addr = remove table addr

pub record AliasEvent : Type 0 where
  pub va : ℕ
  pub old_name : String
  pub new_name : String
  pub source : String
  pub seq : ℕ

pub data CommentScope : Type 0 where
  address_scope function_scope : CommentScope

pub record CommentStore : Type 0 where
  pub by_addr : KeyMap ℕ String
  pub by_function : KeyMap ℕ String

unfoldable pub get_comment : CommentStore → ℕ → CommentScope → Option String
get_comment store va address_scope = store.by_addr va
get_comment store va function_scope = store.by_function va

unfoldable pub set_comment_text : CommentStore → ℕ → CommentScope → String → CommentStore
set_comment_text store va address_scope text = record store {
  by_addr = insert store.by_addr va text;
}
set_comment_text store va function_scope text = record store {
  by_function = insert store.by_function va text;
}

unfoldable pub remove_comment : CommentStore → ℕ → CommentScope → CommentStore
remove_comment store va address_scope = record store { by_addr = remove store.by_addr va }
remove_comment store va function_scope = record store { by_function = remove store.by_function va }

pub record FunctionMemoryCard : Type 0 where
  pub va : ℕ
  pub purpose : Option String
  pub tags : List String
  pub key_apis : List String
  pub key_strings : List String
  pub purity : Option String
  pub confidence : ℕ
  pub updated_seq : ℕ

-- The card that `inverse` writes where there was none, and that applying reads as a removal.
abbrev pub clear_card : ℕ → FunctionMemoryCard
clear_card va = record {
  va = va;
  purpose = none;
  tags = "__clear__" ∷ [];
  key_apis = [];
  key_strings = [];
  purity = none;
  confidence = 0;
  updated_seq = 0;
}

-- `card.tags.as_slice() == ["__clear__"]`
unfoldable pub tags_clear : List String → Bool
tags_clear [] = false
tags_clear (t ∷ []) = string_eq.beq t "__clear__"
tags_clear (t ∷ u ∷ ts) = false

unfoldable pub is_none {ℓ} : {A : Type ℓ} → Option A → Bool
is_none none = true
is_none (some a) = false

unfoldable pub is_clear : FunctionMemoryCard → Bool
unfolding tags_clear is_none
is_clear card = tags_clear card.tags && is_none card.purpose
