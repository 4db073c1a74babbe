-- ===== src/ChunkParser/Tests.antt =====
-- A parser for two texts (packages/web3-utils/src/chunk_response_parser.ts).
use web3_js.Common.{
  ◌≡◌, refl, some, [], ◌∷◌, codes, Text, text_same_instance, ◌==◌, true, false, if◌then◌else◌,
}
use web3_js.JsonRpc.{batch}
use web3_js.ChunkParser.{
  Parsed, syntax_error, value, Parser, create_parser, dechunk, parse_chunk, on_chunk_timeout,
  replace_all, split_pieces,
}
use web3_js.ChunkParser.Carrying.{
  arriving, waiting, IsBounded, take_all, take_all-IsBounded, stale_chunk_stays,
}

-- Reads one text as an empty batch, and no other.
abbrev reads : Text → Parsed
reads s = if s == codes "{1}" then value (batch []) else syntax_error

split_at_braces :
    dechunk (codes "{1}\n{2}[{3}]{4}")
    ≡ codes "{1}" ∷ codes "{2}" ∷ codes "[{3}]" ∷ codes "{4}" ∷ []
unfolding dechunk replace_all split_pieces
split_at_braces = refl

take_all-IsBounded_example :
    IsBounded
      (take_all reads
        (arriving (codes "{1") ∷ waiting ∷ arriving (codes "}") ∷ [])
        (create_parser true)).last_chunk
take_all-IsBounded_example =
    take_all-IsBounded reads true (arriving (codes "{1") ∷ waiting ∷ arriving (codes "}") ∷ [])

abbrev stale : Parser
stale = record {
  last_chunk = some (codes "{");
  running = true;
  clears_queues = true;
  auto_reconnect = false;
  log = [];
}

stale_chunk_stays_example : (parse_chunk reads (codes "{1}") (on_chunk_timeout stale)).0 ≡ []
stale_chunk_stays_example =
    stale_chunk_stays reads (codes "{") (codes "{1}") (batch []) stale refl refl refl
