-- ===== src/Tests/AttachmentTests.antt =====
-- The theorem on the attachment cache after an attachment was acquired twice and released once.
use tactile.Base.{Text, codes}
use tactile.Attachments.{
  Cache, acquire, release, InUse, none_yet, later, empty_cache, acquire_attachment_url,
  release_attachment_url,
}
use tactile.Attachments.Alive.{IsAlive, IsAlive-InUse}

abbrev src : Text
src = codes "attachments/x.png"

abbrev once : Cache
once = (acquire_attachment_url (codes "/n") src empty_cache).1

abbrev twice : Cache
twice = (acquire_attachment_url (codes "/n") src once).1

twice-InUse : InUse (release_attachment_url (codes "/n") src twice)
twice-InUse =
    later
      (later (later none_yet (acquire empty_cache (codes "/n") src))
        (acquire once (codes "/n") src))
      (release twice (codes "/n") src)

IsAlive-InUse_example : IsAlive (release_attachment_url (codes "/n") src twice)
IsAlive-InUse_example = IsAlive-InUse twice-InUse
