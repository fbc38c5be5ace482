-- ===== src/Tests/Urls.antt =====
-- Runs on URLs.
use realtime_py.Prelude.{◌≡◌, refl, true, some, ◌++◌, arith}
use realtime_py.Urls.{
  Text, codes, lower, after, http_endpoint_url, broadcast_endpoint_url, client_url, to_http,
  socket_end, at_end, strip_socket, drop_slashes, strip_slashes,
}
use realtime_py.Urls.Endpoint.{NoSocket, EndsPlain, socket_websocket_path, http_endpoint_url-path}
use realtime_py.Urls.Scheme.{a_token, http_text, https_text, Never, client_url_scheme}

abbrev address : Text
address = codes "s://h/v1"

address-NoSocket : NoSocket address
unfolding after lower
address-NoSocket = (
  refl,
  refl,
  (
    refl,
    refl,
    (refl, refl, (refl, refl, (refl, refl, (refl, refl, (refl, refl, (refl, refl, tt)))))),
  ),
)

address-EndsPlain : EndsPlain address
address-EndsPlain = (λ e. omega arith, λ e. omega arith)

http_endpoint_url-path_example :
    (http_endpoint_url (codes "http" ++ (address ++ codes "/socket/websocket/"))
      ≡ codes "http" ++ address)
    × ((url : Text)
        → after (codes "ws") url ≡ some (address ++ codes "/socket/websocket/")
        → http_endpoint_url url ≡ codes "http" ++ address)
    × (broadcast_endpoint_url (codes "http" ++ address)
        ≡ (codes "http" ++ address) ++ codes "/api/broadcast")
http_endpoint_url-path_example =
    http_endpoint_url-path address socket_websocket_path true address-NoSocket address-EndsPlain

upper_case : http_endpoint_url (codes "WSS://h/Socket/") ≡ codes "httpS://h"
unfolding http_endpoint_url to_http after lower strip_socket socket_end at_end drop_slashes
    strip_slashes
upper_case = refl

-- A second pass takes a second path away.
twice_stripped :
    broadcast_endpoint_url (http_endpoint_url (codes "ws://h/socket/socket"))
    ≡ codes "http://h/api/broadcast"
unfolding broadcast_endpoint_url http_endpoint_url to_http after lower strip_socket socket_end
    at_end drop_slashes strip_slashes
twice_stripped = refl

abbrev host : Text
host = codes "h.io"

host-http : Never http_text host
unfolding after lower
host-http = (refl, (refl, (refl, (refl, tt))))

host-https : Never https_text host
unfolding after lower
host-https = (refl, (refl, (refl, (refl, tt))))

client_url_scheme_example :
    let socket = codes "h.io" ++ (codes "/websocket" ++ (codes "?apikey=" ++ codes "key")) in
    (client_url (codes "http://h.io") (some (codes "key")) ≡ codes "ws://" ++ socket)
    × (client_url (codes "ws://h.io") (some (codes "key")) ≡ codes "ws://" ++ socket)
    × (client_url (codes "https://h.io") (some (codes "key")) ≡ codes "wss://" ++ socket)
    × (client_url (codes "wss://h.io") (some (codes "key")) ≡ codes "wss://" ++ socket)
client_url_scheme_example = client_url_scheme host a_token host-http host-https
