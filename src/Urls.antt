-- ===== src/Urls.antt =====
-- realtime/transformers.py and utils.py, and the URLs of realtime/_async/client.py and channel.py. A
-- text is the list of its code points, since the patterns look at single characters.
pub mod Endpoint
pub mod Scheme
use Prim.Native.Char.{code}
use realtime_py.Prelude.{
  ℕ, zero, suc, ◌+◌, String, Bool, true, false, ◌&&◌, ◌||◌, Option, none, some, List, [], ◌∷◌, ◌++◌,
  leb, or_else, ◌==◌, ◌-◌, length, if◌then◌else◌,
}
use realtime_py.Prelude.Dict.{Dict, insert}
use realtime_py.Types.{Json}

abbrev pub Text : Type 0
Text = List ℕ

-- The code points of a literal.
abbrev pub codes : String → Text
codes String.[] = []
codes (String.◌∷◌ c s) = code c ∷ codes s

abbrev pub slash : ℕ
slash = 47

abbrev pub newline : ℕ
newline = 10

-- The letter of a to z that `re.IGNORECASE` takes a character for, by the documentation of `re`: also
-- the long s and the Kelvin sign. No pattern here has an i.
unfoldable pub lower : ℕ → ℕ
lower c =
    if leb 65 c && leb c 90 then c + 32 else if c == 383 then 115 else if c == 8490 then 107 else c

-- The text after a literal in lower case, where the text begins with it, case ignored.
unfoldable pub after : Text → Text → Option Text
after [] text = some text
after (l ∷ ls) [] = none
after (l ∷ ls) (c ∷ cs) = let rest = after ls cs in if lower c == l then rest else none

-- `$`: the end, or the last newline
unfoldable pub at_end : Text → Bool
at_end [] = true
at_end (c ∷ []) = c == newline
at_end (c ∷ d ∷ cs) = false

-- `\/?$`: the text that it leaves
unfoldable pub slash_end : Text → Option Text
slash_end [] = some []
slash_end (c ∷ cs) =
    if c == slash && at_end cs then some cs else if at_end (c ∷ cs) then some (c ∷ cs) else none

-- An alternative of the pattern, with what must follow.
abbrev pub alternative : Text → Text → Option Text
alternative literal text = elim (after literal text) [ none ↦ none | some rest ↦ slash_end rest ]

abbrev pub socket_text : Text
socket_text = codes "/socket"

abbrev pub websocket_text : Text
websocket_text = codes "/websocket"

abbrev pub both_text : Text
both_text = codes "/socket/websocket"

-- `(\/socket\/websocket|\/socket|\/websocket)\/?$`, at this place
unfoldable pub socket_end : Text → Option Text
unfolding after slash_end
socket_end text =
    or_else (alternative both_text text)
      (or_else (alternative socket_text text) (alternative websocket_text text))

-- `re.sub` by the empty text: the leftmost match reaches the end, so there is one at most
unfoldable pub strip_socket : Text → Text
strip_socket [] = []
strip_socket (c ∷ cs) =
    let rest = strip_socket cs in elim (socket_end (c ∷ cs)) [ none ↦ c ∷ rest | some end ↦ end ]

unfoldable pub drop_slashes : Text → Text
drop_slashes [] = []
drop_slashes (c ∷ cs) = let rest = drop_slashes cs in if c == slash then rest else c ∷ cs

-- `re.sub(r"\/+$", "", url)`
unfoldable pub strip_slashes : Text → Text
strip_slashes [] = []
strip_slashes (c ∷ cs) =
    let rest = strip_slashes cs in
    if c == slash && at_end (drop_slashes cs) then drop_slashes cs else c ∷ rest

-- `re.sub(r"^ws", "http", socket_url, flags=re.IGNORECASE)`
unfoldable pub to_http : Text → Text
to_http url = elim (after (codes "ws") url) [ none ↦ url | some rest ↦ codes "http" ++ rest ]

unfoldable pub http_endpoint_url : Text → Text
unfolding to_http strip_socket strip_slashes
http_endpoint_url socket_url = strip_slashes (strip_socket (to_http socket_url))

-- `re.sub` of a literal, case ignored, with the characters of a match that are still to be skipped
unfoldable pub replace_from : Text → Text → ℕ → Text → Text
replace_from literal by skip [] = []
replace_from literal by (suc skip) (c ∷ cs) = replace_from literal by skip cs
replace_from literal by zero (c ∷ cs) = elim (after literal (c ∷ cs)) [
  | none ↦ c ∷ replace_from literal by zero cs
  | some _ ↦ by ++ replace_from literal by (length literal - 1) cs
]

-- `self.url` of `AsyncRealtimeClient.__init__`; an empty token is none.
unfoldable pub client_url : Text → Option Text → Text
client_url url token =
    replace_from (codes "https://") (codes "wss://") zero
      (replace_from (codes "http://") (codes "ws://") zero url)
    ++ codes "/websocket"
    ++ key token
  where
    key : Option Text → Text
    key none = []
    key (some []) = []
    key (some (c ∷ cs)) = codes "?apikey=" ++ (c ∷ cs)

unfoldable pub same_text : Text → Text → Bool
same_text [] [] = true
same_text (c ∷ cs) (d ∷ ds) = c == d && same_text cs ds
same_text _ _ = false

module _ (scheme_of : Text → Text) where
  -- `is_ws_url`, where `scheme_of` is the scheme of the library's `urlparse`
  unfoldable pub is_ws_url : Text → Bool
  unfolding same_text
  is_ws_url url =
      same_text (scheme_of url) (codes "wss")
      || same_text (scheme_of url) (codes "ws")
      || same_text (scheme_of url) (codes "http")
      || same_text (scheme_of url) (codes "https")

  -- The URLs that `AsyncRealtimeClient.__init__` keeps, `url` and `http_endpoint`; else it raises
  -- `ValueError`.
  unfoldable pub init_urls : Text → Option Text → Option (Text × Text)
  unfolding is_ws_url
  init_urls url token =
      if is_ws_url url then some (client_url url token, http_endpoint_url url) else none

-- `AsyncRealtimeChannel._broadcast_endpoint_url`
unfoldable pub broadcast_endpoint_url : Text → Text
broadcast_endpoint_url http_endpoint = http_endpoint_url http_endpoint ++ codes "/api/broadcast"

-- What the library's `urlparse` makes of a text, and `urlunparse` takes.
pub record ParsedUrl : Type 0 where
  pub scheme : Text
  pub netloc : Text
  pub path : Text
  pub params : Text
  pub query : Text
  pub fragment : Text

abbrev pub vsn : Json
vsn = "1.0.0"

-- `AsyncRealtimeClient.endpoint_url`, for the functions of the library `urllib`; nothing calls it.
unfoldable pub endpoint_url :
    (Text → ParsedUrl) → (Dict Json → Text) → (ParsedUrl → Text) → Text → Dict Json → Text
endpoint_url urlparse urlencode urlunparse url params =
    urlunparse (record (urlparse url) { query = urlencode (insert "vsn" vsn params) })
