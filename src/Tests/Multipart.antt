-- ===== src/Tests/Multipart.antt =====
-- The stream parser of src/face-listener on concrete streams.
use face2go_server.Base.{List, [], ◌∷◌, ◌++◌, ◌≡◌, refl, some, arith, drop, take}
use face2go_server.Multipart.Bytes.{Bytes, starts_with}
use face2go_server.Multipart.Headers.{codes}
use face2go_server.Multipart.Parser.{
  MultipartCompletedPart, create_multipart_state, feed_multipart_stream, feed_all,
}
use face2go_server.Multipart.Bytes.{
  index_of, split_lines, trim, is_space, is_digit, is_line_end, parse_int,
}
use face2go_server.Multipart.Headers.{
  find_headers_separator, parse_headers_text, read_lines, read_line, content_type_of,
  content_length_of, is_finite,
}
use face2go_server.Multipart.Parser.{loop, turn_in, body_turn, kept, consume_boundary_line}
use face2go_server.Multipart.Boundary.{extract_boundary_from_content_type}
use face2go_server.Multipart.Headers.{strip_name}
use face2go_server.Multipart.Encoding.{stream, decimal_bytes}
use face2go_server.Multipart.RoundTrip.{feed_all-stream}

abbrev event : MultipartCompletedPart
event = record { content_type = codes "text/plain"; body = codes "a\r\n--b\r\n\r\n" }

abbrev image : MultipartCompletedPart
image = record { content_type = codes "image/jpeg"; body = 255 ∷ 216 ∷ 45 ∷ [] }

abbrev bytes : Bytes
bytes = codes "\r\n" ++ stream (codes "--b") (event ∷ image ∷ [])

-- cut within the first boundary line, in the headers and in a body
abbrev chunks : List Bytes
chunks = take 6 bytes ∷ take 30 (drop 6 bytes) ∷ take 20 (drop 36 bytes) ∷ drop 56 bytes ∷ []

feed_all-stream_example :
    feed_all chunks (create_multipart_state (codes "b")) ≡ some (event ∷ image ∷ [])
unfolding create_multipart_state starts_with decimal_bytes
feed_all-stream_example =
    feed_all-stream (codes "b") (codes "\r\n") (event ∷ image ∷ []) chunks (omega arith)
      (omega arith) refl

-- Headers that end in a pair of line feeds: in one chunk with a body that holds an empty line of
-- the other kind, the body is taken for headers and the part is lost.
abbrev lf_headers : Bytes
lf_headers = codes "--b\nContent-Type: text/plain\nContent-Length: 8\n\n"

abbrev lf_body : Bytes
lf_body = codes "ab\r\n\r\ncd"

lf_parts_cut :
    feed_all (lf_headers ∷ lf_body ∷ []) (create_multipart_state (codes "b"))
    ≡ some (record { content_type = codes "text/plain"; body = lf_body } ∷ [])
unfolding feed_all feed_multipart_stream loop turn_in body_turn kept consume_boundary_line index_of
    starts_with find_headers_separator parse_headers_text read_lines read_line split_lines
    content_type_of content_length_of trim is_space is_digit is_line_end parse_int is_finite
    create_multipart_state
lf_parts_cut = refl

lf_parts_whole :
    feed_all ((lf_headers ++ lf_body) ∷ []) (create_multipart_state (codes "b")) ≡ some []
unfolding feed_all feed_multipart_stream loop turn_in body_turn kept consume_boundary_line index_of
    starts_with find_headers_separator parse_headers_text read_lines read_line split_lines
    content_type_of content_length_of trim is_space is_digit is_line_end parse_int is_finite
    create_multipart_state
lf_parts_whole = refl

boundary_plain :
    extract_boundary_from_content_type (some (codes "multipart/mixed; Boundary=abc; x=1"))
    ≡ codes "abc"
unfolding extract_boundary_from_content_type strip_name is_space
boundary_plain = refl

-- A quoted boundary is not found.
boundary_quoted :
    extract_boundary_from_content_type (some (codes "multipart/mixed; boundary=\"abc\""))
    ≡ codes "myboundary"
unfolding extract_boundary_from_content_type strip_name is_space
boundary_quoted = refl
