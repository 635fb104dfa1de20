-- ===== src/Strings/English.antt =====
-- web/strings.js: the English texts.
use Prim.Native.String.{String}
use quicksend.Base.{List, [], ◌∷◌}

abbrev pub english : List (String × String)
english =
    ("langGroupLabel", "Language")
    ∷ ("themeGroupLabel", "Theme")
    ∷ ("langAuto", "Auto")
    ∷ ("langPl", "PL")
    ∷ ("langEn", "EN")
    ∷ ("themeSystem", "System")
    ∷ ("themeLight", "Light")
    ∷ ("themeDark", "Dark")
    ∷ ("appTagline", "Send a file to another device in seconds.")
    ∷ ("startReceive", "📥 Receive")
    ∷ ("startSend", "📤 Send")
    ∷ ("remoteCodeLink", "Remote? Pair with a code instead of QR")
    ∷ ("codeRoleChooseTitle", "Remote pairing by code")
    ∷ ("roleReceive", "Receive")
    ∷ ("roleSend", "Send")
    ∷ ("backButton", "Back")
    ∷ ("receiverGenerating", "Generating session…")
    ∷ ("receiverWaiting", "Scan this code on the other device")
    ∷ ("receiverLinkLabel", "Or paste this link on the other device:")
    ∷ (
      "shareSecurityWarning",
      "Anyone with this link or QR code can join this transfer. Only share it with the person you're sending the file to.",
    )
    ∷ ("shareButton", "Share")
    ∷ ("shareCopied", "Copied to clipboard")
    ∷ ("shareCopyManually", "Select and copy the text above manually")
    ∷ ("copyCodeButton", "Copy code")
    ∷ ("pasteLinkInsteadButton", "Can't scan? Paste link manually")
    ∷ ("senderPasteLabel", "Paste the link from the other device")
    ∷ ("senderPasteButton", "Join")
    ∷ ("senderScanHint", "Point your camera at the QR code")
    ∷ ("senderCameraError", "Camera access unavailable. Use paste instead.")
    ∷ ("senderPasteInvalid", "That doesn't look like a valid Quicksend link.")
    ∷ ("joinDetectedTitle", "Pairing session detected")
    ∷ ("joinDetectedButton", "Join session")
    ∷ ("joinDetectedCancel", "Cancel")
    ∷ ("codeReceiverWaiting", "Give this code to the other person (any channel)")
    ∷ ("codeExpiryNote", "The code is valid for 5 minutes and can only be used once.")
    ∷ ("codeSenderLabel", "Enter the code you got from the other person")
    ∷ ("statusConnecting", "Connecting…")
    ∷ ("statusJoining", "Joining…")
    ∷ ("statusVerifying", "Verifying code…")
    ∷ ("statusPaired", "Paired!")
    ∷ ("statusPairedHost", "Paired! The other device has joined.")
    ∷ ("statusPairedGuest", "Paired with the other device.")
    ∷ ("errSessionNotFound", "Session not found. The link may be stale.")
    ∷ ("errSessionFull", "This session already has two participants.")
    ∷ ("errTooManySessions", "Too many active sessions from this device.")
    ∷ ("errInvalidCode", "Invalid or expired code.")
    ∷ ("errTooManyAttempts", "Too many attempts. Wait a bit and try again.")
    ∷ ("errCodeMismatch", "The code didn't match on both sides. Try again with a new code.")
    ∷ ("errConnectionLost", "Connection lost and couldn't be resumed.")
    ∷ ("errSessionEnded", "Session ended — the other device didn't come back in time.")
    ∷ ("errEndedByPeer", "The other device ended the session.")
    ∷ ("errInactivityTimeout", "Session ended due to inactivity.")
    ∷ ("errGeneric", "Something went wrong. Please try again.")
    ∷ ("tryAgain", "Try again")
    ∷ ("insecureContextTitle", "No secure connection")
    ∷ (
      "insecureContextBody",
      "This page is open over plain http:// at an address other than localhost, so the browser blocks the encryption (Web Crypto) Quicksend needs for pairing and file transfer. Open it over HTTPS instead — e.g. run docker-compose.yml with Caddy as a reverse proxy (set QUICKSEND_DOMAIN to this device's LAN IP and accept the certificate warning on each device) — or test over localhost only.",
    )
    ∷ ("reconnecting", "Connection lost, trying to reconnect…")
    ∷ ("swapRolesButton", "Swap roles")
    ∷ ("swapRequesting", "Waiting for the other side to agree…")
    ∷ ("swapRejected", "The other side declined (a transfer is in progress). Try again shortly.")
    ∷ ("swapBusyLocal", "Wait for the current transfer to finish first.")
    ∷ ("swapTimedOut", "No response. Try again.")
    ∷ ("disconnectButton", "Disconnect")
    ∷ ("transferSenderHint", "Choose files to send")
    ∷ ("dropHint", "or drag and drop files here")
    ∷ ("transferWaitingForFiles", "Waiting for files…")
    ∷ ("chooseSaveFolderButton", "Choose save folder")
    ∷ ("changeSaveFolderButton", "Change save folder")
    ∷ ("saveFolderChosenPrefix", "Files will be saved to")
    ∷ ("transferReceivingFiles", "Receiving files…")
    ∷ ("transferSending", "Sending…")
    ∷ ("transferSent", "Sent")
    ∷ ("transferSavedToDisk", "Saved to disk")
    ∷ ("transferDownloaded", "Downloaded")
    ∷ ("openFileLink", "Open")
    ∷ ("transferError", "Transfer error")
    ∷ ("transferCanceled", "Canceled")
    ∷ ("transferTooLarge", "File too large — exceeded the size limit")
    ∷ (
      "transferLargeFileWarning",
      "Large file without disk-write support — may use a lot of browser memory.",
    )
    ∷ ("cancelButton", "Cancel")
    ∷ []
