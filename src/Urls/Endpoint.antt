-- ===== src/Urls/Endpoint.antt =====
-- The endpoint that realtime/transformers.py makes of the URL of a socket.
use realtime_py.Prelude.{
  ℕ, ◌≡◌, ◌≢◌, refl, sym, ap, ◌∙◌, Bool, true, false, ◌&&◌, none, some, [], ◌∷◌, ◌++◌, arith,
  append_nil, ◌==◌, Bool-cases, inl, inr, if◌then◌else◌,
}
use realtime_py.Urls.{
  Text, codes, slash, newline, lower, after, at_end, socket_text, websocket_text, socket_end,
  strip_socket, drop_slashes, strip_slashes, to_http, http_endpoint_url, broadcast_endpoint_url,
}

-- No `/socket` and no `/websocket` begins in the text, case ignored.
abbrev pub NoSocket : Text → Type 0
NoSocket [] = Unit
NoSocket (c ∷ cs) =
    (after socket_text (c ∷ cs) ≡ none) × (after websocket_text (c ∷ cs) ≡ none) × NoSocket cs

-- The last character is neither a slash nor a newline.
abbrev pub EndsPlain : Text → Type 0
EndsPlain [] = ⊥
EndsPlain (c ∷ []) = (c ≢ slash) × (c ≢ newline)
EndsPlain (c ∷ d ∷ cs) = EndsPlain (d ∷ cs)

-- The path of a socket, which may end in a slash.
pub data SocketPath : Type 0 where
  no_path socket_path websocket_path socket_websocket_path : SocketPath

abbrev pub path_text : SocketPath → Bool → Text
path_text no_path false = []
path_text no_path true = codes "/"
path_text socket_path false = codes "/socket"
path_text socket_path true = codes "/socket/"
path_text websocket_path false = codes "/websocket"
path_text websocket_path true = codes "/websocket/"
path_text socket_websocket_path false = codes "/socket/websocket"
path_text socket_websocket_path true = codes "/socket/websocket/"

abbrev NoSlash : Text → Type 0
NoSlash [] = Unit
NoSlash (l ∷ ls) = (l ≢ slash) × NoSlash ls

-- What a literal without a slash does not begin, it does not begin either when a slash follows.
after-slash :
    (ls text rest : Text)
    → NoSlash ls
    → after ls text ≡ none
    → after ls (text ++ slash ∷ rest) ≡ none
unfolding after lower
after-slash [] text rest h e = cc
after-slash (l ∷ ls) [] rest h e = ground arith
after-slash (l ∷ ls) (c ∷ cs) rest h e = ground (arith, after-slash ls cs rest h.1)

after-slash_first :
    (ls : Text) (c : ℕ) (cs rest : Text)
    → NoSlash ls
    → after (slash ∷ ls) (c ∷ cs) ≡ none
    → after (slash ∷ ls) (c ∷ cs ++ slash ∷ rest) ≡ none
unfolding after
after-slash_first ls c cs rest h e = ground (arith, after-slash ls cs rest h)

after-longer : (ls ms text : Text) → after ls text ≡ none → after (ls ++ ms) text ≡ none
unfolding after
after-longer [] ms text e = cc
after-longer (l ∷ ls) ms [] e = refl
after-longer (l ∷ ls) ms (c ∷ cs) e = ground (arith, after-longer ls ms cs)

socket_end-none :
    (text : Text)
    → after socket_text text ≡ none
    → after websocket_text text ≡ none
    → socket_end text ≡ none
unfolding socket_end
socket_end-none text a b = simp (after-longer socket_text websocket_text text a, a, b)

-- What no match begins in is kept, also before a path.
strip_socket-kept :
    (h rest : Text)
    → NoSocket h
    → strip_socket (h ++ slash ∷ rest) ≡ h ++ strip_socket (slash ∷ rest)
unfolding strip_socket
strip_socket-kept [] rest free = refl
strip_socket-kept (c ∷ cs) rest (a, b, free) =
    let none_here : socket_end (c ∷ cs ++ slash ∷ rest) ≡ none =
      socket_end-none (c ∷ cs ++ slash ∷ rest)
        (after-slash_first (codes "socket") c cs rest (ground arith) a)
        (after-slash_first (codes "websocket") c cs rest (ground arith) b) in
    rw (strip_socket, none_here) (ap (λ t. c ∷ t) (strip_socket-kept cs rest free))

strip_socket-none : (h : Text) → NoSocket h → strip_socket h ≡ h
unfolding strip_socket
strip_socket-none [] free = refl
strip_socket-none (c ∷ cs) (a, b, free) =
    rw (strip_socket, socket_end-none (c ∷ cs) a b) (ap (λ t. c ∷ t) (strip_socket-none cs free))

strip_socket-path :
    (h : Text) (p : SocketPath) (b : Bool)
    → NoSocket h
    → (e : Text) × (strip_socket (h ++ path_text p b) ≡ h ++ e) × (drop_slashes e ≡ [])
unfolding strip_socket drop_slashes socket_end lower at_end
strip_socket-path h no_path false free = ([], rw (append_nil h) (strip_socket-none h free), refl)
strip_socket-path h no_path true free = (codes "/", strip_socket-kept h [] free, refl)
strip_socket-path h socket_path false free = ([], strip_socket-kept h (codes "socket") free, refl)
strip_socket-path h socket_path true free = ([], strip_socket-kept h (codes "socket/") free, refl)
strip_socket-path h websocket_path false free =
    ([], strip_socket-kept h (codes "websocket") free, refl)
strip_socket-path h websocket_path true free =
    ([], strip_socket-kept h (codes "websocket/") free, refl)
strip_socket-path h socket_websocket_path false free =
    ([], strip_socket-kept h (codes "socket/websocket") free, refl)
strip_socket-path h socket_websocket_path true free =
    ([], strip_socket-kept h (codes "socket/websocket/") free, refl)

strip_slashes-slashes : (e : Text) → drop_slashes e ≡ [] → strip_slashes e ≡ []
unfolding drop_slashes strip_slashes at_end
strip_slashes-slashes [] none_left = refl
strip_slashes-slashes (c ∷ cs) none_left = ground arith

plain-at_end :
    (h e : Text) → EndsPlain h → drop_slashes e ≡ [] → at_end (drop_slashes (h ++ e)) ≡ false
unfolding drop_slashes at_end
plain-at_end [] e plain none_left = absurd plain
plain-at_end (c ∷ []) [] plain none_left = ground arith
plain-at_end (c ∷ []) (d ∷ e) plain none_left = ground arith
plain-at_end (c ∷ d ∷ cs) e plain none_left =
    ground (arith, plain-at_end (d ∷ cs) e plain none_left)

strip_slashes-plain : (h e : Text) → EndsPlain h → drop_slashes e ≡ [] → strip_slashes (h ++ e) ≡ h
unfolding strip_slashes
strip_slashes-plain [] e plain none_left = absurd plain
strip_slashes-plain (c ∷ []) e plain none_left = ground (arith, strip_slashes-slashes e none_left)
strip_slashes-plain (c ∷ d ∷ cs) e plain none_left =
    ground (
      arith,
      strip_slashes-plain (d ∷ cs) e plain none_left,
      plain-at_end (d ∷ cs) e plain none_left,
    )

http-NoSocket : (r : Text) → NoSocket r → NoSocket (codes "http" ++ r)
unfolding after lower
http-NoSocket r free = (refl, refl, (refl, refl, (refl, refl, (refl, refl, free))))

http-EndsPlain : (r : Text) → EndsPlain r → EndsPlain (codes "http" ++ r)
http-EndsPlain [] plain = absurd plain
http-EndsPlain (c ∷ cs) plain = plain

to_http-http : (r : Text) → to_http (codes "http" ++ r) ≡ codes "http" ++ r
unfolding to_http after lower
to_http-http r = refl

stripped :
    (r : Text) (p : SocketPath) (b : Bool)
    → NoSocket r
    → EndsPlain r
    → strip_slashes (strip_socket (codes "http" ++ (r ++ path_text p b))) ≡ codes "http" ++ r
stripped r p b free plain =
    let base = codes "http" ++ r in
    let (e, left, slashes) = strip_socket-path base p b (http-NoSocket r free) in
    ap strip_slashes left ∙ strip_slashes-plain base e (http-EndsPlain r plain) slashes

-- For an address with a last character that is neither a slash nor a newline, in which no `/socket`
-- and no `/websocket` begins: with `http` before it, or with `ws` in upper or lower case, and with any
-- path of a socket after it, the endpoint is `http` and the address; and the endpoint for broadcasts
-- that a channel makes of this endpoint is it with `/api/broadcast`.
pub http_endpoint_url-path :
    (address : Text) (p : SocketPath) (b : Bool)
    → NoSocket address
    → EndsPlain address
    → (http_endpoint_url (codes "http" ++ (address ++ path_text p b)) ≡ codes "http" ++ address)
      × ((url : Text)
          → after (codes "ws") url ≡ some (address ++ path_text p b)
          → http_endpoint_url url ≡ codes "http" ++ address)
      × (broadcast_endpoint_url (codes "http" ++ address)
          ≡ (codes "http" ++ address) ++ codes "/api/broadcast")
unfolding http_endpoint_url to_http broadcast_endpoint_url
http_endpoint_url-path r p b free plain = (
  ap (λ t. strip_slashes (strip_socket t)) (to_http-http (r ++ path_text p b))
      ∙ stripped r p b free plain,
  λ url ws. rw (to_http, ws) (stripped r p b free plain),
  ap (λ t. t ++ codes "/api/broadcast")
      (ap (λ t. strip_slashes (strip_socket t)) (to_http-http r)
        ∙ ap (λ t. strip_slashes (strip_socket (codes "http" ++ t))) (sym (append_nil r))
        ∙ stripped r no_path false free plain),
)

drop-at_end : (t : Text) → strip_slashes t ≡ [] → at_end (drop_slashes t) ≡ true
unfolding strip_slashes drop_slashes at_end
drop-at_end [] e = refl
drop-at_end (c ∷ cs) e = ground arith

abbrev pub ends_in : ℕ → Text → Bool
ends_in k [] = false
ends_in k (c ∷ []) = c == k
ends_in k (c ∷ d ∷ cs) = ends_in k (d ∷ cs)

at_end-ends_in : (t : Text) → at_end t ≡ true → ends_in slash t ≡ false
unfolding at_end
at_end-ends_in [] e = refl
at_end-ends_in (c ∷ []) e = ground arith
at_end-ends_in (c ∷ d ∷ cs) e = cc

last_of :
    (c : ℕ) (rest : Text)
    → (rest ≡ [] → (c == slash) ≡ false)
    → ends_in slash rest ≡ false
    → ends_in slash (c ∷ rest) ≡ false
last_of c [] first later = first refl
last_of c (d ∷ rest) first later = later

strip_slashes-ends_in : (t : Text) → ends_in slash (strip_slashes t) ≡ false
unfolding strip_slashes
strip_slashes-ends_in [] = refl
strip_slashes-ends_in (c ∷ cs) = elim (Bool-cases (c == slash && at_end (drop_slashes cs))) [
  | inl run ↦
      rw (strip_slashes, run, if◌then◌else◌) (at_end-ends_in (drop_slashes cs) (ground arith))
  | inr other ↦
      rw (strip_slashes, other, if◌then◌else◌)
        (last_of c (strip_slashes cs) (λ e. first e (drop-at_end cs e) other)
          (strip_slashes-ends_in cs))
]
  where
    first :
        strip_slashes cs ≡ []
        → at_end (drop_slashes cs) ≡ true
        → (c == slash && at_end (drop_slashes cs)) ≡ false
        → (c == slash) ≡ false
    first e end other = ground arith

-- The endpoint of any text does not end in a slash.
pub http_endpoint_url-ends_in : (url : Text) → ends_in slash (http_endpoint_url url) ≡ false
unfolding http_endpoint_url
http_endpoint_url-ends_in url = strip_slashes-ends_in (strip_socket (to_http url))
