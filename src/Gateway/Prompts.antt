-- ===== src/Gateway/Prompts.antt =====
-- ai-gateway's registry of prompts: prompts/prompts.service.ts over the documents of
-- schemas/prompt-template.schema.ts, of which a unique index allows one for a key and a version. A
-- document that is saved writes the fields that were changed since it was read, as mongoose has it: one
-- that is set to the value that it has is not written.
pub mod Laws
mod Tests
use gen_xtaxi_ai.Common.{
  ℕ, zero, suc, ◌+◌, String, str_eq, Bool, true, false, ◌&&◌, Option, none, some, List, [], ◌∷◌,
  ◌++◌, map, find, keep, any, length, ltb, ◌==◌, if◌then◌else◌,
}
use gen_xtaxi_ai.Cards.{is_word}
use gen_xtaxi_ai.Common.Text.{Text, text_eq, span}
use gen_xtaxi_ai.Gateway.{AiTask}

pub data PromptStatus : Type 0 where
  draft published retired : PromptStatus

pub record PromptTemplate : Type 0 where
  pub key : String
  pub version : ℕ
  pub task : AiTask
  pub content : Text
  pub variables : List Text
  pub status : PromptStatus
  pub created_by : Option String
  pub published_at : Option ℕ

pub record CreatePromptDto : Type 0 where
  pub key : String
  pub task : AiTask
  pub content : Text
  pub variables : Option (List Text)

-- The name and the length of what `/\{(\w+)\}/` matches behind an opening brace.
abbrev named : Text × Text → Option (Text × ℕ)
named ([], rest) = none
named (c ∷ name, []) = none
named (c ∷ name, d ∷ rest) = if d == b'}' then some (c ∷ name, length (c ∷ name) + 1) else none

unfoldable pub variable_at : Text → Option (Text × ℕ)
unfolding span
variable_at [] = none
variable_at (c ∷ s) = if c == b'{' then named (span is_word s) else none

-- A text as the regular expression cuts it: units that it passes over, and names between braces.
pub data Piece : Type 0 where
  unit : ℕ → Piece
  name_of : Text → Piece

-- `skip` units belong to the last match.
unfoldable pub pieces_from : ℕ → Text → List Piece
pieces_from skip [] = []
pieces_from (suc skip) (c ∷ s) = pieces_from skip s
pieces_from zero (c ∷ s) = elim (variable_at (c ∷ s)) [
  | none ↦ unit c ∷ pieces_from zero s
  | some (name, n) ↦ name_of name ∷ pieces_from n s
]

abbrev names_in : List Piece → List Text
names_in [] = []
names_in (unit c ∷ ps) = names_in ps
names_in (name_of name ∷ ps) = name ∷ names_in ps

-- `[...new Set(names)]`, which keeps the first of those that are the same.
abbrev pub distinct : List Text → List Text → List Text
distinct seen [] = []
distinct seen (t ∷ ts) =
    let old = distinct seen ts in
    let new = distinct (t ∷ seen) ts in if any (text_eq t) seen then old else t ∷ new

unfoldable pub extract_vars : Text → List Text
unfolding pieces_from variable_at
extract_vars content = distinct [] (names_in (pieces_from 0 content))

abbrev is_at : String → ℕ → PromptTemplate → Bool
is_at key version p = str_eq p.key key && (p.version == version)

abbrev pub is_published : PromptStatus → Bool
is_published published = true
is_published draft = false
is_published retired = false

abbrev pub max_version : String → List PromptTemplate → ℕ
max_version key [] = 0
max_version key (p ∷ ps) =
    let rest = max_version key ps in
    if str_eq p.key key then (if ltb rest p.version then p.version else rest) else rest

abbrev variables_of : Option (List Text) → Text → List Text
variables_of none content = extract_vars content
variables_of (some names) content = names

abbrev pub drafted : CreatePromptDto → Option String → List PromptTemplate → PromptTemplate
drafted dto created_by docs = record {
  key = dto.key;
  version = max_version dto.key docs + 1;
  task = dto.task;
  content = dto.content;
  variables = variables_of dto.variables dto.content;
  status = draft;
  created_by = created_by;
  published_at = none;
}

unfoldable pub create_draft :
    CreatePromptDto → Option String → List PromptTemplate → PromptTemplate × List PromptTemplate
unfolding extract_vars
create_draft dto created_by docs =
    (drafted dto created_by docs, docs ++ drafted dto created_by docs ∷ [])

-- `updateMany({ key, status: PUBLISHED }, { $set: { status: RETIRED } })`
abbrev pub retire : String → PromptTemplate → PromptTemplate
retire key p =
    if str_eq p.key key && is_published p.status then record p { status = retired } else p

-- What `save` writes: `loaded` is the status that the target had when it was read.
abbrev pub save : ℕ → PromptStatus → PromptTemplate → PromptTemplate
save now loaded p = record p {
  status = if is_published loaded then p.status else published;
  published_at = some now;
}

abbrev pub save_at : ℕ → String → ℕ → PromptStatus → PromptTemplate → PromptTemplate
save_at now key version loaded p = if is_at key version p then save now loaded p else p

abbrev pub published_with :
    ℕ
    → String
    → ℕ
    → Option PromptTemplate
    → List PromptTemplate
    → Option PromptTemplate × List PromptTemplate
published_with now key version none docs = (none, docs)
published_with now key version (some target) docs = (
  some (record target { status = published; published_at = some now }),
  map (λ p. save_at now key version target.status (retire key p)) docs,
)

-- What is returned, or nothing where there is no such version, and the documents behind it.
unfoldable pub publish :
    ℕ → String → ℕ → List PromptTemplate → Option PromptTemplate × List PromptTemplate
publish now key version docs = published_with now key version (find (is_at key version) docs) docs

unfoldable pub resolve_published : String → List PromptTemplate → Option PromptTemplate
resolve_published key docs = find (λ p. str_eq p.key key && is_published p.status) docs

abbrev pub variable : Text → List (Text × Text) → Option Text
variable name [] = none
variable name ((k, v) ∷ vs) = let rest = variable name vs in if text_eq k name then some v else rest

-- `name in variables ? variables[name] : …`: what is not a variable may still be inherited by every
-- object, as `constructor` is, and `inherited` gives the text of what is.
module _ (inherited : Text → Option Text) where
  abbrev pub value_of : Text → List (Text × Text) → Option Text
  value_of name vars = elim (variable name vars) [ some v ↦ some v | none ↦ inherited name ]

  abbrev pub rendered_name : Text → Option Text → Text
  rendered_name name (some v) = v
  rendered_name name none = b'{' ∷ name ++ b'}' ∷ []

  abbrev pub rendered : List Piece → List (Text × Text) → Text
  rendered [] vars = []
  rendered (unit c ∷ ps) vars = c ∷ rendered ps vars
  rendered (name_of name ∷ ps) vars = rendered_name name (value_of name vars) ++ rendered ps vars

  unfoldable pub render : Text → List (Text × Text) → Text
  unfolding pieces_from variable_at
  render content vars = rendered (pieces_from 0 content) vars

  unfoldable pub preview : String → ℕ → List (Text × Text) → List PromptTemplate → Option Text
  unfolding render
  preview key version vars docs = elim (find (is_at key version) docs) [
    | none ↦ none
    | some p ↦ some (render p.content vars)
  ]
