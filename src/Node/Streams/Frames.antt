-- ===== src/Node/Streams/Frames.antt =====
-- The frames of a stream reach the caller in order.
use jb_mesh.Base.{
  sym, subst, length, ap, inl, Bool-cases, ◌||◌, inr, not, Bool, true, false, Option, none, some,
  List, ◌∷◌, [], ◌++◌, ◌≡◌, refl,
}
use jb_mesh.Base.Result.{ok, Result}
use jb_mesh.Base.Text.{is_empty, Text}
use jb_mesh.Base.Json.{Fields}
use jb_mesh.Mesh.Calls.{CallRequest}
use jb_mesh.Node.Streams.{
  CallLog, pump_frames, stamped_frame, handle_stream_request, requested, streamed,
}

module _ (encode : Fields → Option Text) (publish : List Text → Text → Bool) (node : Text) where
  -- The messages of all frames that can be encoded
  unfoldable pub encoded_frames : List Fields → List Text
  encoded_frames [] = []
  encoded_frames (frame ∷ frames) =
      let rest = encoded_frames frames in
      elim (encode (stamped_frame node frame)) [ none ↦ rest | some message ↦ message ∷ rest ]

  -- Each message of the list can be published after those before it.
  abbrev pub AreSent : List Text → List Text → Type 0
  AreSent sent [] = Unit
  AreSent sent (m ∷ messages) = (publish sent m ≡ true) × AreSent (sent ++ m ∷ []) messages

  -- What has been published after some messages, and what is left after a failure
  abbrev pub IsPassedOnAfter : List Text → List Text → List Text → Bool → Type 0
  IsPassedOnAfter sent messages published has_failed =
      (left : List Text) × (messages ≡ published ++ left)
      × AreSent sent published
      × (has_failed ≡ false → left ≡ [])
      × (has_failed ≡ true
          → (m : Text) × (more : List Text) × (left ≡ m ∷ more)
            × (publish (sent ++ published) m ≡ false))

  abbrev pub IsPassedOn : List Text → List Text → Bool → Type 0
  IsPassedOn messages published has_failed = IsPassedOnAfter [] messages published has_failed

  append-nil : (xs : List Text) → xs ++ [] ≡ xs
  append-nil [] = refl
  append-nil (x ∷ xs) = ap (◌∷◌ x) (append-nil xs)

  append-one : (xs : List Text) (x : Text) (ys : List Text) → (xs ++ x ∷ []) ++ ys ≡ xs ++ x ∷ ys
  append-one [] x ys = refl
  append-one (y ∷ xs) x ys = ap (◌∷◌ y) (append-one xs x ys)

  pump_one :
      (sent : List Text) (frame : Fields) (frames : List Fields) (o : Option Text)
      → encode (stamped_frame node frame) ≡ o
      → ((sent : List Text)
          → IsPassedOnAfter sent
              (encoded_frames frames)
              (pump_frames encode publish node sent frames).messages
              (pump_frames encode publish node sent frames).has_failed)
      → IsPassedOnAfter sent
          (encoded_frames (frame ∷ frames))
          (pump_frames encode publish node sent (frame ∷ frames)).messages
          (pump_frames encode publish node sent (frame ∷ frames)).has_failed
  unfolding pump_frames encoded_frames
  pump_one sent frame frames none e p = rw (encoded_frames, pump_frames, e) (p sent)
  pump_one sent frame frames (some message) e p =
      let (left, split_up, all_sent, whole, failed) = p (sent ++ message ∷ []) in
      elim (Bool-cases (publish sent message)) [
        | inl h ↦
            rw (encoded_frames, pump_frames, e, h)
              (
                left,
                ap (◌∷◌ message) split_up,
                (h, all_sent),
                whole,
                λ yes.
                    let (m, more, at, refused) = failed yes in
                    (
                      m,
                      more,
                      at,
                      subst (λ s. publish s m ≡ false)
                          (append-one sent message
                            (pump_frames encode publish node (sent ++ message ∷ [])
                              frames).messages)
                          refused,
                    ),
              )
        | inr h ↦
            rw (encoded_frames, pump_frames, e, h)
              (
                message ∷ encoded_frames frames,
                refl,
                tt,
                λ no. cc,
                λ yes. (
                  message,
                  encoded_frames frames,
                  refl,
                  subst (λ s. publish s message ≡ false) (sym (append-nil sent)) h,
                ),
              )
      ]

  pump_frames-IsPassedOn :
      (frames : List Fields) (sent : List Text)
      → IsPassedOnAfter sent
          (encoded_frames frames)
          (pump_frames encode publish node sent frames).messages
          (pump_frames encode publish node sent frames).has_failed
  unfolding pump_frames encoded_frames
  pump_frames-IsPassedOn [] sent = ([], refl, tt, λ h. refl, λ h. cc)
  pump_frames-IsPassedOn (frame ∷ frames) sent =
      pump_one sent frame frames (encode (stamped_frame node frame)) refl
        (pump_frames-IsPassedOn frames)

  -- Of a request that can be read, whose stream the executor opens, the caller gets the messages of
  -- the frames in their order, up to the first that cannot be published: all of them if there is
  -- none. The log record counts those that were published, and says that the call has succeeded
  -- exactly if all were and the call was not cancelled.
  pub handle_stream_request-IsPassedOn :
      (decode : Text → Option CallRequest) (call : CallRequest → Result Text (List Fields))
      (cancelled : Bool) (reply content : Text) (req : CallRequest) (frames : List Fields)
      → is_empty content ≡ false
      → decode content ≡ some req
      → call req ≡ ok frames
      → (has_failed : Bool) × (log : CallLog) × ((handle_stream_request encode publish node decode
            call cancelled reply content).1
          ≡ some log)
        × IsPassedOn
            (encoded_frames frames)
            (handle_stream_request encode publish node decode call cancelled reply content).0
            has_failed
        × (log.frames
            ≡ length
                (handle_stream_request encode publish node decode call cancelled reply content).0)
        × (log.is_ok ≡ not (has_failed || cancelled))
  unfolding handle_stream_request requested streamed
  handle_stream_request-IsPassedOn decode call cancelled reply content req frames h d c =
      rw (h, d, c)
        (
          (pump_frames encode publish node [] frames).has_failed,
          _,
          refl,
          pump_frames-IsPassedOn frames [],
          refl,
          refl,
        )
