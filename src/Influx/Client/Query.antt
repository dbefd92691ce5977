-- ===== src/Influx/Client/Query.antt =====
-- crates/huginn-influx/src/writer.rs: the write URL of `InfluxWriter::new`, against a reader of
-- queries.
use huginn_io.Core.Config.{InfluxConfig}
use huginn_io.Influx.LineProtocol.Url.{urldecode}
use huginn_io.Influx.LineProtocol.{urlencode}
use huginn_io.Prelude.{
  ℕ, List, [], ◌∷◌, ◌++◌, map, ◌==◌, if◌then◌else◌, Text, Bytes, codes, trim_end_matches,
}

-- What follows the first such character.
abbrev pub after : ℕ → Text → Text
after c [] = []
after c (x ∷ s) = let rest = after c s in if x == c then s else rest

-- What precedes it.
abbrev pub before : ℕ → Text → Text
before c [] = []
before c (x ∷ s) = let rest = before c s in if x == c then [] else x ∷ rest

extend_first : ℕ → List Text → List Text
extend_first x [] = (x ∷ []) ∷ []
extend_first x (part ∷ parts) = (x ∷ part) ∷ parts

-- The parts between such characters.
pub split_on : ℕ → Text → List Text
unfolding extend_first
split_on c [] = [] ∷ []
split_on c (x ∷ s) = let rest = split_on c s in if x == c then [] ∷ rest else extend_first x rest

-- The name of a parameter, and the bytes that it stands for.
abbrev pub read_parameter : Text → Text × Bytes
read_parameter s = (before b'=' s, urldecode (after b'=' s))

abbrev pub read_query : Text → List (Text × Bytes)
read_query url = map read_parameter (split_on b'&' (after b'?' url))

-- The three parameters of a write, as they stand in the URL.
written_query : InfluxConfig → Text
written_query c =
    codes "org="
    ++ (urlencode c.org ++ (codes "&bucket=" ++ (urlencode c.bucket ++ codes "&precision=ms")))

written_path : InfluxConfig → Text
written_path c = trim_end_matches b'/' c.url ++ codes "/api/v2/write"
