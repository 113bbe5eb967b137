-- ===== src/Dispatcher/Handled/Looked.antt =====
-- `handleImage`, `replyLatestImage` and `analyzeLatestImage`.
use thclaws_thai_ai_agent.Base.{ℕ, String, refl, Option, none, some, List}
use thclaws_thai_ai_agent.Sql.{Error, Result, ok, err}
use thclaws_thai_ai_agent.Ledger.Tables.{Db}
use thclaws_thai_ai_agent.Memory.Store.{StoredImage, SlipRecord}
use thclaws_thai_ai_agent.Dispatcher.Chat.{
  Outcome, Call, answered, timed_out, failed, Vision, Service, Asker, C,
}
use thclaws_thai_ai_agent.Dispatcher.Image.{
  ended, ask_slip, slip_or_reply, applied, slip_made, with_image, seen, keep_and_see, stored,
  Naming, Eyes, store_image, downloaded, eyes_of, look_at, answer_image,
}
use thclaws_thai_ai_agent.Dispatcher.Recall.{
  image_url, send_image, show_image, reply_latest_image, seen_again, loaded, analyze_found,
  analyze_with, analyze_by, analyze_latest_image,
}
use thclaws_thai_ai_agent.Dispatcher.Does.{
  IsPreorder, Does, answer, ended_answer, Does-on_memory, Does-bind, Does-map, Does-now, Does-if,
}
use thclaws_thai_ai_agent.Dispatcher.Silent.{
  reply-Does, reply_image-Does, reply_choices_with_lead-Does, reply_timeout_notice-Does,
  save_message-Does,
}

module _ {R : Db → Db → Type 0} (pre : IsPreorder R) where
  pub ended-Does :
      (intent : String) {m : C Outcome} → Does R answer m → Does R ended_answer (ended intent m)
  unfolding ended
  ended-Does intent h = Does-map pre (λ o. (o, intent)) h (λ o. refl)

  ask_slip-Does :
      (who : Asker) (cause : String) (v : Vision) (direction said : String)
      → Does R answer (ask_slip who cause v direction said)
  unfolding ask_slip
  ask_slip-Does who cause v direction said =
      Does-bind pre (Does-on_memory pre _) (λ r. reply_choices_with_lead-Does pre who _ _ _)

  slip_or_reply-Does :
      (who : Asker) (cause : String) (v : Vision) (direction : String)
      → Does R ended_answer (slip_or_reply who cause v direction)
  unfolding slip_or_reply
  slip_or_reply-Does who cause v direction =
      Does-if v.has_amount (ended-Does _ (ask_slip-Does who cause v direction _))
        (ended-Does _ (reply-Does pre who _))

  applied-Does :
      (who : Asker) (cause : String) (v : Vision) (r : Result Error String)
      → Does R ended_answer (applied who cause v r)
  applied-Does who cause v (err e) = ended-Does _ (reply-Does pre who _)
  applied-Does who cause v (ok direction) = slip_or_reply-Does who cause v direction

  slip_made-Does :
      (who : Asker) (cause : String) (v : Vision) (r : Result Error SlipRecord)
      → Does R ended_answer (slip_made who cause v r)
  slip_made-Does who cause v (err e) = ended-Does _ (reply-Does pre who _)
  slip_made-Does who cause v (ok slip) =
      Does-bind pre (Does-on_memory pre _) (λ r. applied-Does who cause v r)

  with_image-Does :
      (who : Asker) (cause : String) (v : Vision) (r : Result Error StoredImage)
      → Does R ended_answer (with_image who cause v r)
  with_image-Does who cause v (err e) = ended-Does _ (reply-Does pre who _)
  with_image-Does who cause v (ok img) =
      Does-if v.is_slip (Does-bind pre (Does-on_memory pre _) (λ r. slip_made-Does who cause v r))
        (ended-Does _ (reply-Does pre who _))

  seen-Does :
      (who : Asker) (cause : String) (img : Result Error StoredImage) (v : Call Vision)
      → Does R ended_answer (seen who cause img v)
  seen-Does who cause img timed_out = ended-Does _ (reply_timeout_notice-Does pre who)
  seen-Does who cause img failed = ended-Does _ (reply-Does pre who _)
  seen-Does who cause img (answered v) = with_image-Does who cause v img

  stored-Does :
      (who : Asker) (message_id : String) (content : List ℕ × String) (name : String)
      (v : Call Vision) (r : Call String)
      → Does R ended_answer (stored who message_id content name v r)
  unfolding keep_and_see
  stored-Does who message_id content name v timed_out =
      ended-Does _ (reply_timeout_notice-Does pre who)
  stored-Does who message_id content name v failed = ended-Does _ (reply-Does pre who _)
  stored-Does who message_id content name v (answered bucket) =
      Does-bind pre (Does-on_memory pre _) (λ img. seen-Does who message_id img v)

  downloaded-Does :
      (naming : Naming) (eyes : Eyes) (who : Asker) (message_id : String)
      (r : Call (List ℕ × String))
      → Does R ended_answer (downloaded naming eyes who message_id r)
  unfolding store_image
  downloaded-Does naming eyes who message_id timed_out =
      ended-Does _ (reply_timeout_notice-Does pre who)
  downloaded-Does naming eyes who message_id failed = ended-Does _ (reply-Does pre who _)
  downloaded-Does naming eyes who message_id (answered content) =
      Does-bind pre (save_message-Does pre who _ _ _)
        (λ u. Does-bind pre (Does-now pre) (λ t. stored-Does who message_id content _ _ _))

  look_at-Does :
      (naming : Naming) (who : Asker) (message_id : String) (eyes : Option Eyes)
      → Does R ended_answer (look_at naming who message_id eyes)
  look_at-Does naming who message_id none = ended-Does _ (reply-Does pre who _)
  look_at-Does naming who message_id (some eyes) =
      downloaded-Does naming eyes who message_id (eyes.download message_id)

  pub answer_image-Does :
      (naming : Naming) (svc : Service) (who : Asker) (message_id : String)
      → Does R ended_answer (answer_image naming svc who message_id)
  unfolding answer_image
  answer_image-Does naming svc who message_id = look_at-Does naming who message_id (eyes_of svc)

  send_image-Does :
      (who : Asker) (image_id : String) (url : Option String)
      → Does R answer (send_image who image_id url)
  send_image-Does who image_id none = reply-Does pre who _
  send_image-Does who image_id (some url) = reply_image-Does pre who _ _ _

  show_image-Does :
      (svc : Service) (who : Asker) (t : ℕ) (r : Result Error (Option StoredImage))
      → Does R answer (show_image svc who t r)
  show_image-Does svc who t (err e) = reply-Does pre who _
  show_image-Does svc who t (ok none) = reply-Does pre who _
  show_image-Does svc who t (ok (some img)) = send_image-Does who img.id (image_url svc img.id t)

  pub reply_latest_image-Does :
      (svc : Service) (who : Asker) → Does R answer (reply_latest_image svc who)
  unfolding reply_latest_image
  reply_latest_image-Does svc who =
      Does-bind pre (Does-now pre)
        (λ t. Does-bind pre (Does-on_memory pre _) (λ r. show_image-Does svc who t r))

  seen_again-Does :
      (who : Asker) (img : StoredImage) (v : Call Vision) → Does R answer (seen_again who img v)
  seen_again-Does who img timed_out = reply_timeout_notice-Does pre who
  seen_again-Does who img failed = reply-Does pre who _
  seen_again-Does who img (answered v) =
      Does-if v.is_slip (Does-if v.has_amount (ask_slip-Does who _ v _ _) (reply-Does pre who _))
        (reply-Does pre who _)

  module _ (get : String → String → Call (List ℕ × String))
      (look : String → String → List ℕ → String → Call Vision) where
    loaded-Does :
        (who : Asker) (img : StoredImage) (r : Call (List ℕ × String))
        → Does R answer (loaded look who img r)
    loaded-Does who img timed_out = reply_timeout_notice-Does pre who
    loaded-Does who img failed = reply-Does pre who _
    loaded-Does who img (answered (bytes, content_type)) = seen_again-Does who img _

    analyze_found-Does :
        (who : Asker) (r : Result Error (Option StoredImage))
        → Does R answer (analyze_found get look who r)
    analyze_found-Does who (err e) = reply-Does pre who _
    analyze_found-Does who (ok none) = reply-Does pre who _
    analyze_found-Does who (ok (some img)) = loaded-Does who img (get img.bucket img.object_name)

    analyze_with-Does : (who : Asker) → Does R answer (analyze_with get look who)
    unfolding analyze_with
    analyze_with-Does who = Does-bind pre (Does-on_memory pre _) (λ r. analyze_found-Does who r)

  analyze_by-Does :
      (who : Asker) (get : Option (String → String → Call (List ℕ × String)))
      (look : Option (String → String → List ℕ → String → Call Vision))
      → Does R answer (analyze_by who get look)
  analyze_by-Does who (some get) (some look) = analyze_with-Does get look who
  analyze_by-Does who (some get) none = reply-Does pre who _
  analyze_by-Does who none look = reply-Does pre who _

  pub analyze_latest_image-Does :
      (svc : Service) (who : Asker) → Does R answer (analyze_latest_image svc who)
  unfolding analyze_latest_image
  analyze_latest_image-Does svc who = analyze_by-Does who svc.store_get svc.vision
