-- ===== src/Tests/Message.antt =====
-- A request with a header and two blocks of body, at src/protocol/HttpMessage.cc.
use tinywf.Prelude.{refl, true, false, some, [], ◌∷◌, ◌++◌}
use tinywf.Prelude.Bytes.{Bytes, codes}
use tinywf.Http.{HeaderLine, init}
use tinywf.Http.Headers.{crlf, colon}
use tinywf.Message.{Message}
use tinywf.Message.Encode.{encode}
use tinywf.Message.Body.{flat}
use tinywf.Message.Encoded.{HaveText, IsEncoded, encode-IsEncoded}
use tinywf.Tests.Http.{raw}

abbrev line : HeaderLine
line = record { name_len = 4; value_len = 1; buf = codes "Host" ++ (colon ++ (codes "h" ++ crlf)) }

abbrev request : Message
request = record {
  parser = record (init false raw) {
    method = some (codes "PUT");
    uri = some (codes "/");
    version = some (codes "HTTP/1.1");
    header_list = line ∷ [];
  };
  size_limit = 1000;
  cur_size = 0;
  output_body = codes "one" ∷ codes "two" ∷ [];
  output_body_size = 6;
}

request-HaveText : HaveText request.parser.header_list ((codes "Host", codes "h") ∷ [])
unfolding HaveText init
request-HaveText = (record { spare = []; named = refl; valued = refl; text = refl }, refl)

-- Nine vectors are enough only if the two blocks are combined.
encode-IsEncoded_example :
    IsEncoded true 9 ((codes "Host", codes "h") ∷ []) request (encode true 9 request)
unfolding flat
encode-IsEncoded_example =
    encode-IsEncoded true 9 ((codes "Host", codes "h") ∷ []) request request-HaveText refl

abbrev received : Message
received = record {
  parser = init false raw;
  size_limit = 10;
  cur_size = 0;
  output_body = [];
  output_body_size = 0;
}
