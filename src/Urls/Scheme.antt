-- ===== src/Urls/Scheme.antt =====
-- The URL of the web socket that `__init__` of realtime/_async/client.py makes of its `url`.
use realtime_py.Prelude.{
  ℕ, Option, some, append_assoc, zero, ◌≡◌, refl, ap, ◌∙◌, none, [], ◌∷◌, ◌++◌,
}
use realtime_py.Urls.{Text, codes, lower, after, replace_from, client_url}

-- The literal begins at no place of the text, case ignored.
abbrev pub Never : Text → Text → Type 0
Never literal [] = Unit
Never literal (c ∷ cs) = (after literal (c ∷ cs) ≡ none) × Never literal cs

replace_from-none :
    (literal by text : Text) → Never literal text → replace_from literal by zero text ≡ text
unfolding replace_from
replace_from-none literal by [] never = refl
replace_from-none literal by (c ∷ cs) (here, never) =
    rw (replace_from, here) (ap (λ t. c ∷ t) (replace_from-none literal by cs never))

abbrev pub http_text : Text
http_text = codes "http://"

abbrev pub https_text : Text
https_text = codes "https://"

-- What the URL ends in for a token.
pub data KeyOf : Option Text → Text → Type 0 where
  no_token : KeyOf none []
  empty_token : KeyOf (some []) []
  a_token : {c : ℕ} {cs : Text} → KeyOf (some (c ∷ cs)) (codes "?apikey=" ++ c ∷ cs)

-- The URL of the socket, where its address has no scheme that is replaced after its start.
client_url-KeyOf :
    (url : Text) {token : Option Text} {key : Text}
    → KeyOf token key
    → client_url url token
      ≡ replace_from https_text
          (codes "wss://")
          zero
          (replace_from http_text (codes "ws://") zero url)
        ++ codes "/websocket"
        ++ key
unfolding client_url
client_url-KeyOf url no_token = refl
client_url-KeyOf url empty_token = refl
client_url-KeyOf url a_token = refl

-- For the rest of an address in which neither `http://` nor `https://` begins, case ignored: the URL of
-- the socket for `http://` or `ws://` before the rest is `ws://` and the rest, and for `https://` or
-- `wss://` it is `wss://` and the rest, with `/websocket` after it, and then `?apikey=` and the token
-- where a token is given that is not empty.
pub client_url_scheme :
    (rest : Text) {token : Option Text} {key : Text}
    → KeyOf token key
    → Never http_text rest
    → Never https_text rest
    → let socket = rest ++ (codes "/websocket" ++ key) in
      (client_url (codes "http://" ++ rest) token ≡ codes "ws://" ++ socket)
      × (client_url (codes "ws://" ++ rest) token ≡ codes "ws://" ++ socket)
      × (client_url (codes "https://" ++ rest) token ≡ codes "wss://" ++ socket)
      × (client_url (codes "wss://" ++ rest) token ≡ codes "wss://" ++ socket)
unfolding replace_from after lower
client_url_scheme rest {key} given http https =
    let a = replace_from-none http_text (codes "ws://") rest http in
    let b = replace_from-none https_text (codes "wss://") rest https in
    let both = ap (replace_from https_text (codes "wss://") zero) a ∙ b in
    let tail = λ (scheme : Text).
      ap (λ t. scheme ++ ((t ++ codes "/websocket") ++ key)) both
      ∙ ap (λ t. scheme ++ t) (append_assoc rest (codes "/websocket") key) in
    (
      client_url-KeyOf (codes "http://" ++ rest) given ∙ tail (codes "ws://"),
      client_url-KeyOf (codes "ws://" ++ rest) given ∙ tail (codes "ws://"),
      client_url-KeyOf (codes "https://" ++ rest) given ∙ tail (codes "wss://"),
      client_url-KeyOf (codes "wss://" ++ rest) given ∙ tail (codes "wss://"),
    )
