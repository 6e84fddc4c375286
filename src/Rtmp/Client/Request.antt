-- ===== src/Rtmp/Client/Request.antt =====
-- protocol/rtmp/request.go: the URL of a stream, and the object of the connect command. Each `send…`
-- function there is the constructor of its message and `send`.
use golive.Common.{ℕ, ◌==◌, Option, List, [], ◌∷◌, ◌++◌}
use golive.Common.{if◌then◌else◌}
use golive.Common.Go.{Result, Error, ok, err, wrong_url}
use golive.Common.Go.Strings.{GoString, ascii, has_prefix}
use golive.Amf.{Fields, text, end}
use golive.Amf.Objects.{put}
use golive.Rtmp.Commands.{new_connect_message}
use golive.Rtmp.Client.{RtmpUrl, RtmpClientHandler, Outcome, send}

-- `strings.Split(s, sep)` for a separator of one byte, and `strings.Join`: the first part, and the
-- others.
unfoldable pub split_parts : ℕ → GoString → GoString × List GoString
split_parts sep [] = ([], [])
split_parts sep (c ∷ s) =
    let (first, rest) = split_parts sep s in
    if c == sep then ([], first ∷ rest) else (c ∷ first, rest)

unfoldable pub join_parts : ℕ → GoString → List GoString → GoString
join_parts sep first [] = first
join_parts sep first (s ∷ rest) = first ++ (sep ∷ join_parts sep s rest)

-- Five parts at least, of which the first four are joined again.
unfoldable pub url_of_parts : GoString → GoString × List GoString → Result RtmpUrl
url_of_parts addr (p0, p1 ∷ p2 ∷ p3 ∷ p4 ∷ rest) = ok (record {
  app_name = p3;
  stream_name = p4;
  tcurl = join_parts 47 p0 (p1 ∷ p2 ∷ p3 ∷ []);
  origin_url = addr;
})
url_of_parts addr _ = err wrong_url

unfoldable pub parse_rtmp_url : GoString → Result RtmpUrl
parse_rtmp_url addr =
    if has_prefix (ascii "rtmp") addr
    then url_of_parts addr (split_parts 47 addr)
    else err wrong_url

unfoldable pub get_connect_cmd_obj : RtmpUrl → Fields
get_connect_cmd_obj ru = put (ascii "tcUrl") (text ru.tcurl) (
    put (ascii "flashVer") (text (ascii "FMS.3.1"))
      (put (ascii "type") (text (ascii "nonprivate")) (put (ascii "app") (text ru.app_name) end)))

unfoldable pub send_connect_message : (List ℕ → Option Error) → RtmpClientHandler → Outcome
send_connect_message on_write h =
    send on_write (new_connect_message (get_connect_cmd_obj h.rtmp_url)) h
