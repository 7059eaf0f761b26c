-- ===== src/Discord/Tests.antt =====
-- internal/discord/client.go: a run of each call against a network that answers from a list.
use discord_free_cloud.Base.{
  ◌+◌, ◌*◌, List, [], ◌∷◌, true, false, some, ◌≡◌, refl, inl, codes, length, ◌≤◌, ◌⊎◌, bytes_eq,
  lookup,
}
use discord_free_cloud.Discord.{Response, second, rate_limited, max_retries}
use discord_free_cloud.Discord.Retry.{limited_try, after_send, asked, free_try, retry}
use discord_free_cloud.Discord.Calls.{
  upload_chunk, upload_request, attachment_url, download_chunk, delete_message, delete_channel,
  attachment_route, delete_route, message_url,
}
use discord_free_cloud.Discord.Log.{logged, Exchange}
use discord_free_cloud.Discord.Spacing.{Spaced, calls-Spaced}
use discord_free_cloud.Discord.Holding.{AllSince, block_all, rate_limit_holds}
use discord_free_cloud.Discord.Uploaded.{Explained, upload_chunk-Explained}
use discord_free_cloud.Discord.Outcomes.{download_chunk_ok, delete_message_ok, SaysGone}
use discord_free_cloud.Discord.Samples.{scripted, unlimited, bumpy, told_to_wait, scripted-IsClock}

upload_chunk-Explained_example :
    let out =
      upload_chunk
        (logged scripted)
        []
        (codes "c1")
        []
        (codes "part")
        []
        (1 ∷ 2 ∷ [])
        unlimited
        (bumpy 200, []) in
    Explained scripted
      (upload_request [] (codes "c1") [] (codes "part") [] (1 ∷ 2 ∷ []))
      (codes "c1")
      out.1
      out.0.0
upload_chunk-Explained_example =
    upload_chunk-Explained scripted [] (codes "c1") [] (codes "part") [] (1 ∷ 2 ∷ []) unlimited
      (bumpy 200)

download_chunk_ok_example :
    (e : Exchange) × ((rest : List Exchange) × ((r : Response) × ((((download_chunk
                (logged scripted)
                (codes "u")
                unlimited
                (bumpy 200, [])).1.1
              ≡ (e ∷ rest))
            × (length rest ≤ 4))
          × (((e.request.url ≡ codes "u") × (e.reply ≡ some r))
              × ((r.status ≡ 200) × ((r.body ≡ codes "m7") × (r.cut_short ≡ false)))))))
unfolding download_chunk retry free_try
download_chunk_ok_example =
    download_chunk_ok scripted (codes "u") (codes "m7") unlimited (bumpy 200) refl

delete_message_ok_example :
    let out =
      delete_message (logged scripted) [] (codes "c1") (codes "m7") unlimited (bumpy 404, []) in
    (((codes "c1" ≡ []) ⊎ (codes "m7" ≡ [])) × (out.1.1 ≡ []))
    ⊎ ((e : Exchange) × ((rest : List Exchange) × ((r : Response) × (((out.1.1 ≡ (e ∷ rest))
                × (length rest ≤ 4))
              × (((e.request.url ≡ message_url (codes "c1") (codes "m7")) × (e.reply ≡ some r))
                  × SaysGone r.status)))))
unfolding delete_message bytes_eq retry limited_try lookup
delete_message_ok_example =
    delete_message_ok scripted [] (codes "c1") (codes "m7") unlimited (bumpy 404) refl

calls-Spaced_example :
    Spaced scripted true
      (upload_chunk
        (logged scripted)
        []
        (codes "c1")
        (codes "hook")
        (codes "part")
        []
        (1 ∷ [])
        unlimited
        (bumpy 200, [])).1.1
    × (Spaced scripted false
          (attachment_url
            (logged scripted)
            []
            (codes "c1")
            (codes "m7")
            []
            unlimited
            (bumpy 200, [])).1.1
        × (Spaced scripted true
              (delete_message
                (logged scripted)
                []
                (codes "c1")
                (codes "m7")
                unlimited
                (bumpy 200, [])).1.1
            × Spaced scripted true
                (delete_channel (logged scripted) [] (codes "c1") unlimited (bumpy 200, [])).1.1))
calls-Spaced_example =
    calls-Spaced scripted scripted-IsClock [] (codes "c1") (codes "hook") (codes "m7") []
      (codes "part") [] (1 ∷ []) unlimited (bumpy 200)

rate_limit_holds_example :
    AllSince
      (5 + 2 * second)
      (retry
        (logged scripted)
        (limited_try (logged scripted) (attachment_route scripted [] (codes "c2") (codes "m1") []))
        rate_limited
        max_retries
        0
        (block_all
          ((false, (codes "c3", 9)) ∷ [])
          (after_send scripted
            (delete_route scripted [] (codes "c1") (message_url (codes "c1") (codes "m7")))
            0
            unlimited
            (some told_to_wait, (5, []))).0.1)
        ((1, []), [])).1.1
unfolding asked
rate_limit_holds_example =
    rate_limit_holds scripted scripted-IsClock
      (delete_route scripted [] (codes "c1") (message_url (codes "c1") (codes "m7")))
      (attachment_route scripted [] (codes "c2") (codes "m1") []) rate_limited 0 max_retries 0
      (2 * second) unlimited told_to_wait (5, []) (1, []) ((false, (codes "c3", 9)) ∷ []) refl refl
      (inl refl)
