-- ===== src/Session/Losses.antt =====
-- An exchange that leaves no flow.
use decrypt0r_x.Prelude.{ℕ, ◌≡◌, true, some}
use decrypt0r_x.Text.{Text}
use decrypt0r_x.Policy.{Decision}
use decrypt0r_x.Result.{ok, err, timed_out}
use decrypt0r_x.Recorder.Flows.{FlowRecord}
use decrypt0r_x.Http1.Heads.{RequestHead}
use decrypt0r_x.Exchange.Links.{Library, Link, expires}
use decrypt0r_x.Exchange.Recording.{snapshot, with_request}
use decrypt0r_x.Exchange.{stripped, target_of, forward_request, await_response, exchange}
use decrypt0r_x.Exchange.Fallible.{passes}
use decrypt0r_x.Session.{Settings, Stamp, stopped, new_record, next_request, rounds, serve_http}

module _ (lib : Library) (settings : Settings) (decision : Decision) (stamps : ℕ → Stamp) where
  -- the record when the request is sent
  abbrev pub asking : Text → RequestHead → FlowRecord
  asking target request =
      with_request target request decision.redact (snapshot decision.redact request.headers)
        (new_record settings decision (stamps 0))

  -- Where the first request was forwarded whole and its response does not come in time, `_serve_http` raises the
  -- timeout and has submitted nothing: the request that was sent to the origin is recorded by no flow.
  pub serve_http-slow_origin :
      (request : RequestHead) (link : Link) (target : Text) (sent : FlowRecord) (link' : Link)
      → target_of lib request.target ≡ ok target
      → forward_request lib target (stripped request) decision (asking target request) link
        ≡ passes (sent, link')
      → expires link'.waits ≡ true
      → serve_http lib settings decision stamps (some request) link ≡ stopped (err timed_out)
  unfolding serve_http rounds next_request exchange await_response
  serve_http-slow_origin request link target sent link' targeted forwarded late =
      rw (targeted, forwarded, late)
