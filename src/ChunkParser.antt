-- ===== src/ChunkParser.antt =====
-- packages/web3-utils/src/chunk_response_parser.ts: responses out of a stream of texts. A text is a
-- list of code units; `JSON.parse` is a parameter.
pub mod Carrying
mod Tests
use web3_js.Common.{
  ℕ, zero, suc, ◌+◌, ◌*◌, Bool, true, false, ◌&&◌, ◌||◌, Option, none, some, List, [], ◌∷◌, ◌++◌,
  Text, nat_eq, ltb, if◌then◌else◌, length,
}
use web3_js.JsonRpc.{Response}

-- What `JSON.parse` does with a text: it throws, gives a falsy value, or gives a response.
pub data Parsed : Type 0 where
  syntax_error falsy : Parsed
  value : Response → Parsed

pub data Report : Type 0 where
  queues_cleared chunk_too_large chunk_timeout : Report

-- `running`: the timer of `lastChunkTimeout` can still fire.
pub record Parser : Type 0 where
  pub last_chunk : Option Text
  pub running : Bool
  pub clears_queues : Bool
  pub auto_reconnect : Bool
  pub log : List Report

unfoldable pub create_parser : Bool → Parser
create_parser auto = record {
  last_chunk = none;
  running = false;
  clears_queues = false;
  auto_reconnect = auto;
  log = [];
}

abbrev pub max_chunk_bytes : ℕ
max_chunk_bytes = 10 * 1024 * 1024

-- Code units: `\n` 10, `\r` 13, `[` 91, `]` 93, `{` 123, `|` 124, `}` 125.
abbrev separator : Text
separator = 124 ∷ 45 ∷ 45 ∷ 124 ∷ []

abbrev is_newline : ℕ → Bool
is_newline c = nat_eq c 10 || nat_eq c 13

-- How many code units `start` takes at the head of the text, if it stands there.
abbrev match_text : Text → Text → Bool
match_text [] s = true
match_text (c ∷ p) [] = false
match_text (c ∷ p) (d ∷ s) = nat_eq c d && match_text p s

-- `/left[\n\r]?right/` behind `left`: whether it matches, and whether with a newline.
abbrev matches_right : Text → Text → Option Bool
matches_right right [] = none
matches_right right (c ∷ s) =
    if match_text right (c ∷ s)
    then some false
    else if is_newline c && match_text right s
    then some true
    else none

abbrev drop_text : Text → Text → Text
drop_text [] s = s
drop_text (c ∷ p) [] = []
drop_text (c ∷ p) (d ∷ s) = drop_text p s

abbrev match_at : Text → Text → Text → Option Bool
match_at left right s = if match_text left s then matches_right right (drop_text left s) else none

-- The code units of a match that follow its first one.
abbrev rest_length : Text → Text → Bool → ℕ
rest_length [] right newline = 0
rest_length (c ∷ left) right newline = length left + length right + (if newline then 1 else 0)

-- `.replace(/left[\n\r]?right/g, 'left|--|right')`; `skip` code units belong to a match already
-- written.
unfoldable pub replace_all : Text → Text → ℕ → Text → Text
replace_all left right skip [] = []
replace_all left right (suc skip) (c ∷ s) = replace_all left right skip s
replace_all left right zero (c ∷ s) = elim (match_at left right (c ∷ s)) [
  | none ↦ c ∷ replace_all left right 0 s
  | some newline ↦
      left ++ (separator ++ (right ++ replace_all left right (rest_length left right newline) s))
]

-- `.split('|--|')`; `piece` is the current piece, reversed into place as it grows.
unfoldable pub split_pieces : ℕ → Text → Text → List Text
split_pieces skip piece [] = piece ∷ []
split_pieces (suc skip) piece (c ∷ s) = split_pieces skip piece s
split_pieces zero piece (c ∷ s) = elim (match_text separator (c ∷ s)) [
  | true ↦ piece ∷ split_pieces 3 [] s
  | false ↦ split_pieces 0 (piece ++ (c ∷ [])) s
]

unfoldable pub dechunk : Text → List Text
unfolding replace_all split_pieces
dechunk s = split_pieces 0 [] (
    replace_all (125 ∷ 93 ∷ []) (123 ∷ []) 0 (
      replace_all (125 ∷ []) (91 ∷ 123 ∷ []) 0
        (replace_all (125 ∷ 93 ∷ []) (91 ∷ 123 ∷ []) 0 (replace_all (125 ∷ []) (123 ∷ []) 0 s))))

abbrev report : Report → Parser → Parser
report r p = record p { log = r ∷ p.log }

abbrev pub clear_queues_of : Parser → Parser
clear_queues_of p = if p.clears_queues then report queues_cleared p else p

unfoldable pub on_parse_error : Bool → Parser → Parser
on_parse_error given p = record p { clears_queues = given }

-- `if (this.lastChunk) …`: an empty text is no carried chunk.
abbrev pub with_last : Option Text → Text → Text
with_last none s = s
with_last (some t) s = t ++ s

abbrev pub parsed_chunk : Parsed → Text → Parser → List Response × Parser
parsed_chunk syntax_error s p = ([], record p { last_chunk = some s; running = true })
parsed_chunk falsy s p = ([], record p { last_chunk = none; running = false })
parsed_chunk (value r) s p = (r ∷ [], record p { last_chunk = none; running = false })

module _ (json_parse : Text → Parsed) where
  -- One round of the loop; the text is the chunk with what was carried in front.
  unfoldable pub parse_joined : Text → Parser → List Response × Parser
  parse_joined s p =
      if ltb max_chunk_bytes (length s)
      then ([], report chunk_too_large (clear_queues_of (record p { last_chunk = none })))
      else parsed_chunk (json_parse s) s p

  unfoldable pub parse_chunk : Text → Parser → List Response × Parser
  parse_chunk s p = parse_joined (with_last p.last_chunk s) p

  unfoldable pub parse_chunks : List Text → Parser → List Response × Parser
  parse_chunks [] p = ([], p)
  parse_chunks (s ∷ rest) p =
      let (found, p') = parse_chunk s p in
      let (more, p'') = parse_chunks rest p' in (found ++ more, p'')

  unfoldable pub parse_response : Text → Parser → List Response × Parser
  parse_response text p = parse_chunks (dechunk text) p

-- The callback of the timer, if it still runs.
unfoldable pub on_chunk_timeout : Parser → Parser
on_chunk_timeout p =
    let fired = record p { running = false } in
    let reported = report chunk_timeout (clear_queues_of fired) in
    if p.running then (if p.auto_reconnect then fired else reported) else p
