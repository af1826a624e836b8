-- ===== src/Tests/Heads.antt =====
-- Request heads on which the theorems on reading and writing them are tried.
use decrypt0r_x.Prelude.{List, ◌≡◌, refl, [], ◌∷◌, ◌++◌, none, some, arith}
use decrypt0r_x.Text.{Text, codes}
use decrypt0r_x.Result.{ok}
use decrypt0r_x.Http1.Heads.{
  RequestHead, serialize_request, serialize_response, read_request_head, read_response_head,
}
use decrypt0r_x.Http1.Heads.Items.{IsItem}
use decrypt0r_x.Http1.Heads.RoundTrip.{IsHead, read_request_head-serialize}
use decrypt0r_x.Http1.Heads.Stray.{read_request_head-stray_crlf}
use decrypt0r_x.Http1.Heads.Responses.{response, IsResponse, read_response_head-serialize}
use decrypt0r_x.Text.Number.Decimal.{decimal, str_int}

abbrev fetch : RequestHead
fetch = record {
  method = codes "GET";
  target = codes "/a";
  version = codes "HTTP/1.1";
  headers = record {
    items = (codes "Host", codes "example.org") ∷ (codes "X-Time", codes "12:30 UTC") ∷ [];
  };
}

host-IsItem : IsItem (codes "Host", codes "example.org")
host-IsItem = record {
  name_line = refl;
  value_line = refl;
  name_colon = refl;
  name_start = refl;
  name_strip = refl;
  value_strip = refl;
}

time-IsItem : IsItem (codes "X-Time", codes "12:30 UTC")
time-IsItem = record {
  name_line = refl;
  value_line = refl;
  name_colon = refl;
  name_start = refl;
  name_strip = refl;
  value_strip = refl;
}

fetch-IsHead : IsHead fetch
unfolding serialize_request
fetch-IsHead = record {
  method_token = refl;
  target_token = refl;
  version_line = refl;
  all_items = (host-IsItem, (time-IsItem, tt));
  count = omega arith;
  size = omega arith;
}

read_request_head-serialize_example :
    read_request_head (record { rest = serialize_request fetch none ++ codes "GET"; sizes = [] })
    ≡ ok (some fetch, record { rest = codes "GET"; sizes = [] })
read_request_head-serialize_example =
    read_request_head-serialize fetch (codes "GET") [] fetch-IsHead

read_request_head-stray_crlf_example :
    read_request_head (record { rest = 13 ∷ 10 ∷ codes "GET"; sizes = [] })
    ≡ ok (none, record { rest = codes "GET"; sizes = [] })
read_request_head-stray_crlf_example = read_request_head-stray_crlf (codes "GET") []

abbrev length_item : List (Text × Text)
length_item = (codes "Content-Length", codes "0") ∷ []

length-IsItem : IsItem (codes "Content-Length", codes "0")
length-IsItem = record {
  name_line = refl;
  value_line = refl;
  name_colon = refl;
  name_start = refl;
  name_strip = refl;
  value_strip = refl;
}

not_found-IsResponse : IsResponse (codes "HTTP/1.1") 404 (codes "Not Found") length_item
unfolding serialize_response decimal str_int
not_found-IsResponse = record {
  version_token = refl;
  digits = omega arith;
  reason_line = refl;
  all_items = (length-IsItem, tt);
  count = omega arith;
  size = omega arith;
}

read_response_head-serialize_example :
    read_response_head (record {
      rest =
          serialize_response (response (codes "HTTP/1.1") 404 (codes "Not Found") length_item)
          ++ codes "HTTP";
      sizes = [];
    })
    ≡ ok (
      some (response (codes "HTTP/1.1") 404 (codes "Not Found") length_item),
      record { rest = codes "HTTP"; sizes = [] },
    )
read_response_head-serialize_example =
    read_response_head-serialize (codes "HTTP/1.1") 404 (codes "Not Found") length_item
      (codes "HTTP") [] not_found-IsResponse
