-- ===== src/Lib.antt =====
-- Decrypt0rX, an intercepting proxy with a management API: the core of its data plane and of its
-- administration.
--
-- The program. services/proxy is the data plane: for each connection it asks the policy engine for a
-- decision, and in the intercepted ones it reads HTTP/1.1 messages, strips the hop-by-hop headers,
-- decides how the body is delimited, and forwards it while it keeps a bounded copy. services/api is the
-- control plane: users, policy rules and certificate authorities, in tables that the proxy reads.
-- packages/core holds the tables' rows and the helpers that both use.
--
-- Which file models which part.
--   Http1/Headers     services/proxy/decrypt0rx_proxy/http1.py, class Headers: the fields are the list of
--                     pairs; get, get_all, set, remove, to_dict, serialize and strip_hop_by_hop return the
--                     changed value.
--   Http1/Stream      the asyncio streams. A reader is the bytes that arrive and the sizes in which
--                     they do; a writer is what was sent and which drains find the connection reset.
--   Http1/Tee         _Tee and BodyResult.
--   Http1/Framing     body_framing; the framings are a data type.
--   Http1/Pump        pump_body: each loop is a function, and an exception is an error of Result.
--   Models            packages/core/decrypt0rx_core/models.py, the rows that the modelled code reads.
--   Policy            services/proxy/decrypt0rx_proxy/policy.py: Decision, CompiledRule and PolicyEngine
--                     with refresh and evaluate. Matching is the interface of fnmatch and ipaddress.
--   Proxy             services/proxy/decrypt0rx_proxy/proxy.py: valid_host, parse_authority, the rate
--                     limiter, _on_client, _handle_connect and _handle_plain_http; what they do is a
--                     list of effects.
--   Policy/DryRun     test_policy of services/api/app/routers/policies.py.
--   Http1/Heads       the heads of requests and responses: reading, parsing, serialize.
--   Certs             services/proxy/decrypt0rx_proxy/certs.py: the loaded authority and its cache of
--                     contexts. Tls is the interface of the cryptography library and ssl, whose calls may
--                     raise.
--   Redaction         packages/core/decrypt0rx_core/redaction.py; Codecs is the interface of its regular
--                     expressions and codecs.
--   Storage           packages/core/decrypt0rx_core/storage.py, class LocalBodyStore: the files by their paths,
--                     as pathlib normalises them, and the directories made for them.
--   Recorder          services/proxy/decrypt0rx_proxy/recorder.py: the queue and the workers are a
--                     step function on events.
--   Api/Access        get_current_user and require_role of services/api/app/deps.py.
--   Api/Users         services/api/app/routers/users.py.
--   Api/Authorities   services/api/app/routers/ca.py.
--   Api/Policies      the other handlers of services/api/app/routers/policies.py, with the constraints of
--                     services/api/app/schemas.py on their payloads.
--   Exchange          services/proxy/decrypt0rx_proxy/proxy.py: _exchange, over two explicit connections
--                     whose timed waits expire or not (Exchange/Links); Exchange/Recording is what it
--                     writes into the record, and Exchange/Relay is _relay. A stage of it passes, or
--                     fails with an exception and the record as it is by then.
--   Session           services/proxy/decrypt0rx_proxy/proxy.py: _serve_http; the flows that it submits, its
--                     counter, and whether it returns or raises.
--   Proxy/Interception  services/proxy/decrypt0rx_proxy/proxy.py: _intercept and _on_sni, as a list of acts.
--   Http1/Content     decode_content of services/proxy/decrypt0rx_proxy/http1.py.
--   Redaction/Url     redact_url of packages/core/decrypt0rx_core/redaction.py.
--   Pki               packages/core/decrypt0rx_core/pki.py; Pki/Library has the interface X509
--                     of the cryptography library.
--   SecretBox         packages/core/decrypt0rx_core/crypto.py; Cipher is the interface of AES-GCM and of the
--                     decoders.
--   Api/Flows         services/api/app/routers/flows.py: listing, statistics, bodies, dumps and the purge.
--   Api/Auth          services/api/app/routers/auth.py and services/api/app/security.py.
--   Text, Result, Prelude  text as lists of code points, exceptions as values, shared lemmas.
--
-- State. A handler takes the database before the request and returns its reply with the database
-- after it; a request that raises leaves the database as it was last committed. Requests are taken one
-- after the other: the interleaving of two transactions is not modelled.
--
-- Fuel. The loops of pump_body run on one more than the bytes that are left in the stream: each round
-- takes at least one byte, so the fuel never runs out; likewise the loop of _read_head_lines and that of
-- _relay. The loop of _serve_http runs on two more than the bytes that are left of the client, as its first
-- round may have its head already. The digits of a number are taken in one more round than the number.
-- Numbers are natural numbers, as Python's integers have no width; a negative length or limit is an integer
-- of Prelude/Int.
--
-- Parameters. What the code takes from fnmatch, ipaddress, argon2, JWT and the cryptography library is
-- an argument of the definitions that use it, and the theorems hold for every such argument that meets the
-- hypotheses they name.
--
-- Where they interact. _serve_http calls _exchange, which calls the readers of heads, body_framing and
-- pump_body of http1.py and the redaction; what it submits is what the recorder takes. An authority goes
-- from the router of the API through the secret box and the table to the provider of the proxy. The rules of
-- the API are what the engine of the proxy compiles, and the body that the recorder stores is what the
-- flows router reads.
--
-- Times are microseconds, and those of certificates whole seconds.
--
-- Not modelled. A peer that neither sends nor ends its stream: a read without a timeout waits for it for ever. What
-- a file system refuses for lack of space or for a name. The S3 store, start-up, logging and metrics, and the nodes, which are input and output
-- around the modelled parts; the legacy prototype and the web front end, which share no code with the services.
pub mod Prelude
pub mod Text
pub mod Result
pub mod Http1
pub mod Models
pub mod Policy
pub mod Api
pub mod Redaction
pub mod Storage
pub mod Recorder
pub mod Proxy
pub mod Exchange
pub mod Session
pub mod Certs
pub mod SecretBox
pub mod Pki
pub mod Tests
