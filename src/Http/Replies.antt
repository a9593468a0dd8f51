-- ===== src/Http/Replies.antt =====
-- src/peer_http.cpp: the texts of the replies, how a reply with a printed body is put in line, and
-- `write_error`.
use xixi.Prelude.{ℕ, Bool, Option, List, [], ◌++◌, ◌==◌, if◌then◌else◌, length, take, codes}
use xixi.CacheMgr.Delta.{decimal_from}
use xixi.CacheMgr.State.{
  Reason, success, not_found, exists, too_large, mismatch, out_of_memory, watch_not_found,
}
use xixi.Http.State.{PeerHttp, add_text, add_printed, printed, finish}

unfoldable pub default_res_200_keep_alive : List ℕ
default_res_200_keep_alive =
    codes
      "HTTP/1.1 200 OK\r\nServer: Xixibase/0.7\r\nConnection: Keep-Alive\r\nContent-Type: text/html\r\nContent-Length: "

unfoldable pub default_res_200_close : List ℕ
default_res_200_close =
    codes
      "HTTP/1.1 200 OK\r\nServer: Xixibase/0.7\r\nConnection: close\r\nContent-Type: text/html\r\nContent-Length: "

unfoldable pub get_res_200_keep_alive : List ℕ
get_res_200_keep_alive =
    codes "HTTP/1.1 200 OK\r\nServer: Xixibase/0.7\r\nConnection: Keep-Alive\r\nContent-Type: "

unfoldable pub get_res_200_close : List ℕ
get_res_200_close =
    codes "HTTP/1.1 200 OK\r\nServer: Xixibase/0.7\r\nConnection: close\r\nContent-Type: "

unfoldable pub get_res_304_keep_alive : List ℕ
get_res_304_keep_alive =
    codes
      "HTTP/1.1 304 Not Modified\r\nServer: Xixibase/0.7\r\nConnection: Keep-Alive\r\nContent-Type: "

unfoldable pub get_res_304_close : List ℕ
get_res_304_close =
    codes "HTTP/1.1 304 Not Modified\r\nServer: Xixibase/0.7\r\nConnection: close\r\nContent-Type: "

unfoldable pub get_res_301_keep_alive : List ℕ
get_res_301_keep_alive =
    codes
      "HTTP/1.1 301 Moved Permanently\r\nServer: Xixibase/0.7\r\nConnection: Keep-Alive\r\nContent-Type: text/html\r\nContent-Length: "

unfoldable pub get_res_301_close : List ℕ
get_res_301_close =
    codes
      "HTTP/1.1 301 Moved Permanently\r\nServer: Xixibase/0.7\r\nConnection: close\r\nContent-Type: text/html\r\nContent-Length: "

unfoldable pub delete_res_200_keep_alive : List ℕ
delete_res_200_keep_alive =
    codes
      "HTTP/1.1 200 OK\r\nServer: Xixibase/0.7\r\nConnection: Keep-Alive\r\nContent-Type: text/html\r\nContent-Length: 0\r\n\r\n"

unfoldable pub delete_res_200_close : List ℕ
delete_res_200_close =
    codes
      "HTTP/1.1 200 OK\r\nServer: Xixibase/0.7\r\nConnection: close\r\nContent-Type: text/html\r\nContent-Length: 0\r\n\r\n"

unfoldable pub error_res_400_keep_alive : List ℕ
error_res_400_keep_alive =
    codes
      "HTTP/1.1 400 Bad Request\r\nServer: Xixibase/0.7\r\nConnection: Keep-Alive\r\nContent-Type: text/html\r\nContent-Length: 24\r\n\r\n<H1>400 Bad Request</H1>"

unfoldable pub error_res_400_close : List ℕ
error_res_400_close =
    codes
      "HTTP/1.1 400 Bad Request\r\nServer: Xixibase/0.7\r\nConnection: close\r\nContent-Type: text/html\r\nContent-Length: 24\r\n\r\n<H1>400 Bad Request</H1>"

unfoldable pub error_res_401_keep_alive : List ℕ
error_res_401_keep_alive =
    codes
      "HTTP/1.1 401 Unauthorized\r\nServer: Xixibase/0.7\r\nConnection: Keep-Alive\r\nContent-Type: text/html\r\nContent-Length: 25\r\n\r\n<H1>401 Unauthorized</H1>"

unfoldable pub error_res_401_close : List ℕ
error_res_401_close =
    codes
      "HTTP/1.1 401 Unauthorized\r\nServer: Xixibase/0.7\r\nConnection: close\r\nContent-Type: text/html\r\nContent-Length: 25\r\n\r\n<H1>401 Unauthorized</H1>"

unfoldable pub error_res_404_keep_alive : List ℕ
error_res_404_keep_alive =
    codes
      "HTTP/1.1 404 Not Found\r\nServer: Xixibase/0.7\r\nConnection: Keep-Alive\r\nContent-Type: text/html\r\nContent-Length: 22\r\n\r\n<H1>404 Not Found</H1>"

unfoldable pub error_res_404_close : List ℕ
error_res_404_close =
    codes
      "HTTP/1.1 404 Not Found\r\nServer: Xixibase/0.7\r\nConnection: close\r\nContent-Type: text/html\r\nContent-Length: 22\r\n\r\n<H1>404 Not Found</H1>"

unfoldable pub error_res_413_keep_alive : List ℕ
error_res_413_keep_alive =
    codes
      "HTTP/1.1 413 Request Entity Too Large\r\nServer: Xixibase/0.7\r\nConnection: Keep-Alive\r\nContent-Type: text/html\r\nContent-Length: 37\r\n\r\n<H1>413 Request Entity Too Large</H1>"

unfoldable pub error_res_413_close : List ℕ
error_res_413_close =
    codes
      "HTTP/1.1 413 Request Entity Too Large\r\nServer: Xixibase/0.7\r\nConnection: close\r\nContent-Type: text/html\r\nContent-Length: 37\r\n\r\n<H1>413 Request Entity Too Large</H1>"

unfoldable pub error_res_500_keep_alive : List ℕ
error_res_500_keep_alive =
    codes
      "HTTP/1.1 500 Internal Server Error\r\nServer: Xixibase/0.7\r\nConnection: Keep-Alive\r\nContent-Type: text/html\r\nContent-Length: 34\r\n\r\n<H1>500 Internal Server Error</H1>"

unfoldable pub error_res_500_close : List ℕ
error_res_500_close =
    codes
      "HTTP/1.1 500 Internal Server Error\r\nServer: Xixibase/0.7\r\nConnection: close\r\nContent-Type: text/html\r\nContent-Length: 34\r\n\r\n<H1>500 Internal Server Error</H1>"

-- The values of `xixi_reason` in src/xixibase.h.
abbrev pub reason_code : Reason → ℕ
reason_code success = 0
reason_code not_found = 1
reason_code exists = 2
reason_code too_large = 3
reason_code mismatch = 6
reason_code out_of_memory = 9
reason_code watch_not_found = 12

abbrev pub invalid_parameter : ℕ
invalid_parameter = 4

abbrev pub auth_error : ℕ
auth_error = 7

abbrev pub moved_permanently : ℕ
moved_permanently = 20

-- The text of an error for a client that keeps the connection, and for one that does not. The latter's text for 413 is
-- cut off, since it is the former's with the size of its own.
unfoldable pub error_res : ℕ → Bool → List ℕ
unfolding take error_res_400_keep_alive error_res_400_close error_res_401_keep_alive
    error_res_401_close error_res_404_keep_alive error_res_404_close error_res_413_keep_alive
    error_res_413_close error_res_500_keep_alive error_res_500_close
error_res error_code keepalive =
    if error_code == reason_code not_found
    then if keepalive then error_res_404_keep_alive else error_res_404_close
    else if error_code == reason_code too_large
    then if keepalive
      then error_res_413_keep_alive
      else take (length error_res_413_close) error_res_413_keep_alive
    else if error_code == auth_error
    then if keepalive then error_res_401_keep_alive else error_res_401_close
    else if error_code == reason_code out_of_memory
    then if keepalive then error_res_500_keep_alive else error_res_500_close
    else if keepalive
    then error_res_400_keep_alive
    else error_res_400_close

unfoldable pub write_error : ℕ → PeerHttp → PeerHttp
unfolding error_res
write_error error_code p = finish (add_text (error_res error_code p.http_request.keepalive) p)

-- `PRIu64` and `PRIu32`
unfoldable pub print_uint : ℕ → List ℕ
unfolding decimal_from
print_uint x = decimal_from 20 x []

-- The two texts of a status, by what the request says of the connection.
abbrev pub by_keepalive : List ℕ → List ℕ → PeerHttp → List ℕ
by_keepalive keep_alive close p = if p.http_request.keepalive then keep_alive else close

-- The header that ends with the size of the body.
abbrev pub size_header : List ℕ → List ℕ
size_header body = print_uint (length body) ++ codes "\r\n\r\n"

-- The status line, the header and the body, in line.
abbrev pub lined : List ℕ → List ℕ → List ℕ → Option (ℕ × ℕ) → Option (ℕ × ℕ) × PeerHttp → PeerHttp
lined status header body body_at (header_at, p) =
    finish (add_printed body body_at (add_printed header header_at (add_text status p)))

abbrev pub header_printed : List ℕ → ℕ → List ℕ → List ℕ → Option (ℕ × ℕ) × PeerHttp → PeerHttp
header_printed status header_room header body (at, p) =
    lined status header body at (printed header_room header p)

-- The body is printed first, into so many bytes, then the header.
unfoldable pub write_printed : List ℕ → ℕ → List ℕ → ℕ → List ℕ → PeerHttp → PeerHttp
unfolding printed
write_printed status header_room header body_room body p =
    header_printed status header_room header body (printed body_room body p)

-- The answer to a command that succeeded.
unfoldable pub write_body : ℕ → ℕ → List ℕ → PeerHttp → PeerHttp
unfolding write_printed print_uint default_res_200_keep_alive default_res_200_close
write_body body_room header_room body p =
    write_printed (by_keepalive default_res_200_keep_alive default_res_200_close p) header_room
      (size_header body) body_room body p
