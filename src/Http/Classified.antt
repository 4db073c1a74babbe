-- ===== src/Http/Classified.antt =====
-- packages/web3-providers-http/src/index.ts: how a request ends, and what it leaves behind.
use web3_js.Common.{
  ℕ, ◌≡◌, refl, ap, sym, ◌∙◌, subst, Option, none, some, List, [], ◌∷◌, String, Text, arith, Bool,
  true, false, if◌then◌else◌,
}
use web3_js.Fault.{Fault, Result, ok, err, connection_timeout, request_timeout}
use web3_js.JsonRpc.{Response}
use web3_js.Socket.State.{Abort}
use web3_js.Socket.Settle.{dispose}
use web3_js.Socket.Request.{TimeoutValue, Signal, live, aborted_with, compose_abort_signal}
use web3_js.Http.{Bounds, HttpResponse}
use web3_js.Http.Exchange.{
  Happening, header_deadline, request_deadline, caller_aborts, Signals, compose_signals, pass_on,
  expire, happen, happen_all, dispose_both, HttpWorld, settle_signals, request_timeout_of,
  request_http, settled_signals, signal_of, classify, conclude, read_response, requested,
}

-- No timer and no listener of the composed signal is left.
abbrev pub IsReleased : Abort → Type 0
IsReleased a = (a.disposed ≡ true) × (a.timer ≡ false) × (a.listening ≡ false)

-- A signal that was disposed has nothing left.
abbrev IsTidy : Abort → Type 0
IsTidy a = a.disposed ≡ true → (a.timer ≡ false) × (a.listening ≡ false)

abbrev AreTidy : Signals → Type 0
AreTidy s = IsTidy s.whole × IsTidy s.header

dispose-IsReleased : (a : Abort) → IsTidy a → IsReleased (dispose a)
unfolding dispose
dispose-IsReleased a h = ground arith

IsReleased-IsTidy : (a : Abort) → IsReleased a → IsTidy a
IsReleased-IsTidy a h e = (h.1, h.2)

IsTidy-expire : (e : Fault) (a : Abort) → IsTidy a → IsTidy (expire e a)
unfolding expire dispose
IsTidy-expire e a h = ground arith

IsTidy-pass_on : (e : Fault) (a : Abort) → IsTidy a → IsTidy (pass_on e a)
unfolding pass_on dispose
IsTidy-pass_on e a h = ground arith

IsTidy-compose_abort_signal : (t : ℕ) (s : Option Signal) → IsTidy (compose_abort_signal t s)
unfolding compose_abort_signal dispose
IsTidy-compose_abort_signal t none = ground arith
IsTidy-compose_abort_signal t (some live) = ground arith
IsTidy-compose_abort_signal t (some (aborted_with e)) = ground arith

AreTidy-if : (b : Bool) (s t : Signals) → AreTidy s → AreTidy t → AreTidy (if b then s else t)
AreTidy-if true s t h k = h
AreTidy-if false s t h k = k

AreTidy-happen :
    (method : Option String) (h : Happening) (s : Signals) → AreTidy s → AreTidy (happen method h s)
unfolding happen
AreTidy-happen method header_deadline s t =
    AreTidy-if s.header.timer _ s
      (t.0, IsTidy-expire (connection_timeout s.header.timeout) s.header t.1) t
AreTidy-happen method request_deadline s t =
    let e = request_timeout s.whole.timeout method in
    AreTidy-if s.whole.timer _ s (IsTidy-expire e s.whole t.0, IsTidy-pass_on e s.header t.1) t
AreTidy-happen method (caller_aborts e) s t =
    AreTidy-if s.whole.listening _ s (IsTidy-pass_on e s.whole t.0, IsTidy-pass_on e s.header t.1) t

AreTidy-happen_all :
    (method : Option String) (hs : List Happening) (s : Signals)
    → AreTidy s
    → AreTidy (happen_all method hs s)
unfolding happen_all
AreTidy-happen_all method [] s t = t
AreTidy-happen_all method (h ∷ hs) s t =
    AreTidy-happen_all method hs (happen method h s) (AreTidy-happen method h s t)

-- Nothing reaches a signal that was released.
happen-released :
    (method : Option String) (h : Happening) (s : Signals)
    → IsReleased s.header
    → (happen method h s).header ≡ s.header
unfolding happen pass_on
happen-released method header_deadline s r = ground arith
happen-released method request_deadline s r = ground arith
happen-released method (caller_aborts e) s r = ground arith

happen_all-released :
    (method : Option String) (hs : List Happening) (s : Signals)
    → IsReleased s.header
    → (happen_all method hs s).header ≡ s.header
unfolding happen_all
happen_all-released method [] s r = refl
happen_all-released method (h ∷ hs) s r =
    let same = happen-released method h s r in
    happen_all-released method hs (happen method h s) (subst IsReleased (sym same) r) ∙ same

AreTidy-settled :
    (method : Option String) (w : HttpWorld) (o : Result HttpResponse) (s : Signals)
    → AreTidy s
    → AreTidy (settled_signals method w o s)
AreTidy-settled method w (err e) s t = AreTidy-happen_all method w.until_headers s t
AreTidy-settled method w (ok r) s t =
    let t' = AreTidy-happen_all method w.until_headers s t in
    AreTidy-happen_all method w.while_reading _ (
      t'.0,
      IsReleased-IsTidy (dispose (happen_all method w.until_headers s).header)
          (dispose-IsReleased (happen_all method w.until_headers s).header t'.1),
    )

AreTidy-compose_signals : (t c : ℕ) (s : Option Signal) → AreTidy (compose_signals t c s)
unfolding compose_signals
AreTidy-compose_signals t c s = (
  IsTidy-compose_abort_signal t s,
  IsTidy-compose_abort_signal c (some (signal_of (compose_abort_signal t s).aborted)),
)

dispose-timed_out : (a : Abort) → (dispose a).timed_out ≡ a.timed_out
unfolding dispose
dispose-timed_out a = ground arith

-- With the headers the connection deadline is over, whatever happens while the body is read.
header_after :
    (method : Option String) (w : HttpWorld) (r : HttpResponse) (s : Signals)
    → AreTidy s
    → (settled_signals method w (ok r) s).header.timed_out
      ≡ (happen_all method w.until_headers s).header.timed_out
header_after method w r s t =
    let s' = happen_all method w.until_headers s in
    ap (λ a. a.timed_out)
      (happen_all-released method w.while_reading _
        (dispose-IsReleased s'.header (AreTidy-happen_all method w.until_headers s t).1))
    ∙ dispose-timed_out s'.header

-- Without the connection deadline only an error that is a connection timeout already stays one.
classify-connection :
    (method : Option String) (e : Fault) (s : Signals) (n : ℕ)
    → s.header.timed_out ≡ false
    → classify method e s ≡ connection_timeout n
    → e ≡ connection_timeout n
unfolding classify
classify-connection method e s n h p = ground arith

conclude-connection :
    (method : Option String) (r : Result Response) (s : Signals) (n : ℕ)
    → s.header.timed_out ≡ false
    → conclude method r s ≡ err (connection_timeout n)
    → r ≡ err (connection_timeout n)
conclude-connection method (ok v) s n h p = absurd (ground arith)
conclude-connection method (err e) s n h p =
    ap (λ f. err f) (classify-connection method e s n h (err-injective p))
  where
    err-injective : {e f : Fault} → Path (Result Response) (err e) (err f) → e ≡ f
    err-injective p = ground arith

module _ (decode : List ℕ → Text) (json_parse : Text → Option Response) (empty : Response) where
  -- However a request with a valid timeout ends, no timer and no listener of its two signals is
  -- left; and once `fetch` has given a response, whether the connection deadline passed is what it
  -- was before, so that, if it had not passed, the request ends as a connection timeout only when
  -- reading the response itself gives that error.
  pub request_http-IsReleased :
      (b : Bounds) (override : Option TimeoutValue) (method : Option String)
      (caller : Option Signal) (w : HttpWorld) (timeout : ℕ)
      → request_timeout_of b override ≡ ok timeout
      → (s : Signals) × ((request_http decode json_parse empty b override method caller w).1
          ≡ some s)
        × IsReleased s.whole
        × IsReleased s.header
        × ((r : HttpResponse)
            → w.fetched ≡ ok r
            → s.header.timed_out
              ≡ (happen_all method w.until_headers
                  (compose_signals timeout b.connection_timeout caller)).header.timed_out)
        × ((r : HttpResponse) (n : ℕ)
            → w.fetched ≡ ok r
            → (happen_all method w.until_headers
                (compose_signals timeout b.connection_timeout caller)).header.timed_out
              ≡ false
            → (request_http decode json_parse empty b override method caller w).0
              ≡ err (connection_timeout n)
            → read_response decode json_parse empty b.max_response_bytes w.cancel (ok r)
              ≡ err (connection_timeout n))
  unfolding request_http dispose_both settle_signals
  request_http-IsReleased b override method caller w timeout e =
      let start = compose_signals timeout b.connection_timeout caller in
      let s = settled_signals method w w.fetched start in
      let tidy = AreTidy-compose_signals timeout b.connection_timeout caller in
      let t = AreTidy-settled method w w.fetched start tidy in
      let kept : (r : HttpResponse)
          → w.fetched ≡ ok r
          → (settled_signals method w w.fetched start).header.timed_out
            ≡ (happen_all method w.until_headers start).header.timed_out =
        λ r q. rw q (header_after method w r start tidy) in
      (
        dispose_both s,
        rw e refl,
        dispose-IsReleased s.whole t.0,
        dispose-IsReleased s.header t.1,
        λ r q. dispose-timed_out s.header ∙ kept r q,
        λ r n q before timed.
            subst
              (λ f.
                read_response decode json_parse empty b.max_response_bytes w.cancel f
                ≡ err (connection_timeout n))
              q
              (conclude-connection method
                (read_response decode json_parse empty b.max_response_bytes w.cancel w.fetched) s n
                (kept r q ∙ before)
                (sym (ap (λ x. (requested decode json_parse empty b method caller w x).0) e)
                  ∙ timed)),
      )
